-- ===== src/Cpu/Interrupts.antt =====
-- Reset and interrupt entry, crates/refwork-emu/src/cpu/mod.rs.
pub mod Safe
pub mod Return
use reference_workload.Base.{
  ℕ, ◌+◌, true, false, if◌then◌else◌, u8, ◌>>>◌, not8, bit_and, bit_or, join, page_one,
}
use reference_workload.Cpu.Flags
use reference_workload.Cpu.Registers.{Cpu, set_flag}
use reference_workload.Cpu.Machine.{Bus, Action, gets, ◌>>=◌, ◌>>◌, modify, read, idle}
use reference_workload.Cpu.Stack.{push8}

pub data IntKind : Type 0 where
  nmi irq brk cop : IntKind

-- `vectors`, by the kind of interrupt.
unfoldable pub native_vector : IntKind → ℕ
native_vector cop = 0xFFE4
native_vector brk = 0xFFE6
native_vector nmi = 0xFFEA
native_vector irq = 0xFFEE

unfoldable pub emu_vector : IntKind → ℕ
emu_vector cop = 0xFFF4
emu_vector nmi = 0xFFFA
emu_vector irq = 0xFFFE
emu_vector brk = 0xFFFE

abbrev pub emu_reset : ℕ
emu_reset = 0xFFFC

-- The copy of P that emulation mode pushes: bit 4 says that the interrupt is a software one.
unfoldable pub pushed_status : IntKind → ℕ → ℕ
pushed_status brk p = bit_or p Flags.x
pushed_status cop p = bit_or p Flags.x
pushed_status nmi p = bit_and p (not8 Flags.x)
pushed_status irq p = bit_and p (not8 Flags.x)

unfoldable pub reset_registers : Cpu → Cpu
reset_registers r = record r {
  e = true;
  p = bit_and (bit_or (bit_or Flags.m Flags.x) Flags.i) (not8 Flags.d);
  s = page_one r.s;
  x = bit_and r.x 0x00FF;
  y = bit_and r.y 0x00FF;
  d = 0;
  dbr = 0;
  pbr = 0;
  waiting = false;
  stopped = false;
}

-- `self.set_flag(flags::I, true); self.set_flag(flags::D, false); self.pbr = 0;`
unfoldable pub enter_handler : Cpu → Cpu
enter_handler r = let r' = set_flag Flags.d false (set_flag Flags.i true r) in record r' { pbr = 0 }

module _ {S : Type 0} ⦃bus : Bus S⦄ where
  -- The two reads of a vector into PC.
  unfoldable pub load_pc : ℕ → Action S (Unit {0})
  load_pc vec = do lo ← read vec; hi ← read (vec + 1); modify (λ r. record r { pc = join lo hi })

  unfoldable pub push_pc : Action S (Unit {0})
  push_pc = do hi ← gets (λ r. u8 (r.pc >>> 8)); push8 hi; lo ← gets (λ r. u8 r.pc); push8 lo

  unfoldable pub reset : Action S (Unit {0})
  unfolding load_pc
  reset = do modify reset_registers; idle; idle; load_pc emu_reset

  -- The two arms of `service_interrupt`, for emulation and native mode.
  unfoldable pub enter_emulated : IntKind → Action S (Unit {0})
  unfolding load_pc push_pc
  enter_emulated kind = do
    push_pc
    status ← gets (λ r. pushed_status kind r.p)
    push8 status
    modify enter_handler
    load_pc (emu_vector kind)

  unfoldable pub enter_native : IntKind → Action S (Unit {0})
  unfolding load_pc push_pc
  enter_native kind = do
    bank ← gets (λ r. r.pbr)
    push8 bank
    push_pc
    status ← gets (λ r. r.p)
    push8 status
    modify enter_handler
    load_pc (native_vector kind)

  unfoldable pub service_interrupt : IntKind → Action S (Unit {0})
  unfolding enter_emulated enter_native
  service_interrupt kind = do
    idle
    idle
    emulated ← gets (λ r. r.e)
    if emulated then enter_emulated kind else enter_native kind
