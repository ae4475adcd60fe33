-- ===== src/Cpu/Interrupts/Safe.antt =====
-- Reset and interrupt entry keep the register invariant, and reach 24-bit addresses only.
use reference_workload.Base.{ℕ, ◌+◌, ◌^◌, ◌<◌, arith, u8, not8, page_one_lem, low_byte_lem, ◌>>>◌}
use reference_workload.Base.Bits.{bit_or-lt, bit_and-le}
use reference_workload.Cpu.Flags
use reference_workload.Cpu.Registers.{Cpu}
use reference_workload.Cpu.Registers.WellFormed.{
  IsFit, IsWf, set_flag-IsWf, set_pc-IsWf, set_pbr-IsWf, i-IsStatus, d-IsStatus,
}
use reference_workload.Cpu.Machine.{Bus}
use reference_workload.Cpu.Machine.Ensures.{
  IsSafeBus, IsByte, IsAny, Ensures, Ensures-gets, Ensures-bind, Ensures-if, Ensures-modify,
  Ensures-read, Ensures-idle,
}
use reference_workload.Cpu.Stack.Safe.{IsWf-IsLoose, join-IsWord, push8-Ensures}
use reference_workload.Cpu.Interrupts.{
  IntKind, nmi, irq, brk, cop, native_vector, emu_vector, pushed_status, reset_registers,
  enter_handler, load_pc, push_pc, enter_emulated, enter_native, service_interrupt, emu_reset,
}

pushed_status-IsByte : (kind : IntKind) (p : ℕ) → IsByte p → IsByte (pushed_status kind p)
unfolding pushed_status
pushed_status-IsByte nmi p h = omega (arith, bit_and-le p (not8 Flags.x))
pushed_status-IsByte irq p h = omega (arith, bit_and-le p (not8 Flags.x))
pushed_status-IsByte brk p h = bit_or-lt 8 p Flags.x h (omega arith)
pushed_status-IsByte cop p h = bit_or-lt 8 p Flags.x h (omega arith)

native_vector-lt : (kind : IntKind) → native_vector kind + 1 < 2 ^ 16
unfolding native_vector
native_vector-lt nmi = omega arith
native_vector-lt irq = omega arith
native_vector-lt brk = omega arith
native_vector-lt cop = omega arith

emu_vector-lt : (kind : IntKind) → emu_vector kind + 1 < 2 ^ 16
unfolding emu_vector
emu_vector-lt nmi = omega arith
emu_vector-lt irq = omega arith
emu_vector-lt brk = omega arith
emu_vector-lt cop = omega arith

enter_handler-IsWf : (r : Cpu) → IsWf r → IsWf (enter_handler r)
unfolding enter_handler
enter_handler-IsWf r w =
    set_pbr-IsWf _ (set_flag-IsWf _ _ _ d-IsStatus (set_flag-IsWf _ _ _ i-IsStatus w)) 0
      (omega arith)

-- Reset makes well-formed registers of any that fit.
pub reset_registers-IsWf : (r : Cpu) → IsFit r → IsWf (reset_registers r)
unfolding reset_registers
reset_registers-IsWf r f = ground (arith, low_byte_lem r.x, low_byte_lem r.y, page_one_lem r.s)

module _ {S : Type 0} ⦃bus : Bus S⦄ {keep : S → Type 0} (safe : IsSafeBus bus keep) where
  pub load_pc-Ensures : (vec : ℕ) → vec + 1 < 2 ^ 16 → Ensures IsWf keep (load_pc vec) IsAny
  unfolding load_pc
  load_pc-Ensures vec h = Ensures-bind (Ensures-read safe vec (omega arith)) λ lo p.
      Ensures-bind (Ensures-read safe _ (omega arith))
        λ hi q. Ensures-modify _ (λ r w. set_pc-IsWf r w _ (join-IsWord lo hi p q))

  push_pc-Ensures : Ensures IsWf keep push_pc IsAny
  unfolding push_pc
  push_pc-Ensures =
      Ensures-bind (Ensures-gets {Q = IsByte} (λ r. u8 (r.pc >>> 8)) (λ r w. omega arith)) λ hi p.
        Ensures-bind (push8-Ensures IsWf-IsLoose safe hi p) λ _ _.
          Ensures-bind (Ensures-gets {Q = IsByte} (λ r. u8 r.pc) (λ r w. omega arith))
            λ lo q. push8-Ensures IsWf-IsLoose safe lo q

  pub enter_emulated-Ensures : (kind : IntKind) → Ensures IsWf keep (enter_emulated kind) IsAny
  unfolding enter_emulated
  enter_emulated-Ensures kind = Ensures-bind push_pc-Ensures λ _ _.
      Ensures-bind
        (Ensures-gets {Q = IsByte} (λ r. pushed_status kind r.p)
          (λ r w. pushed_status-IsByte kind r.p w.p_fits))
        λ v h. Ensures-bind (push8-Ensures IsWf-IsLoose safe v h) λ _ _.
          Ensures-bind (Ensures-modify _ enter_handler-IsWf)
            λ _ _. load_pc-Ensures _ (emu_vector-lt kind)

  pub enter_native-Ensures : (kind : IntKind) → Ensures IsWf keep (enter_native kind) IsAny
  unfolding enter_native
  enter_native-Ensures kind =
      Ensures-bind (Ensures-gets {Q = IsByte} (λ r. r.pbr) (λ r w. w.pbr_fits)) λ bank p.
        Ensures-bind (push8-Ensures IsWf-IsLoose safe bank p) λ _ _.
          Ensures-bind push_pc-Ensures λ _ _.
            Ensures-bind (Ensures-gets {Q = IsByte} (λ r. r.p) (λ r w. w.p_fits)) λ v h.
              Ensures-bind (push8-Ensures IsWf-IsLoose safe v h) λ _ _.
                Ensures-bind (Ensures-modify _ enter_handler-IsWf)
                  λ _ _. load_pc-Ensures _ (native_vector-lt kind)

  pub service_interrupt-Ensures :
      (kind : IntKind) → Ensures IsWf keep (service_interrupt kind) IsAny
  unfolding service_interrupt
  service_interrupt-Ensures kind = Ensures-bind (Ensures-idle safe) λ _ _.
      Ensures-bind (Ensures-idle safe) λ _ _.
        Ensures-bind {Q = IsAny} (Ensures-gets _ (λ _ _. tt))
          λ e _. Ensures-if e _ _ (enter_emulated-Ensures kind) (enter_native-Ensures kind)

  -- The steps of `reset` after its registers are set.
  pub reset_tail-Ensures : Ensures IsWf keep (load_pc emu_reset) IsAny
  reset_tail-Ensures = load_pc-Ensures emu_reset (omega arith)
