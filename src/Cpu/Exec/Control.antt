-- ===== src/Cpu/Exec/Control.antt =====
-- Branch, jump, call, return and block-move arms of `execute`, crates/refwork-emu/src/cpu/exec.rs.
use reference_workload.Base.{
  ℕ, ◌+◌, List, [], ◌∷◌, Bool, true, not, ◌&&◌, if◌then◌else◌, has, ◌==◌, ltb, add16, sub16,
  bit_and, bit_or, join, long_address,
}
use reference_workload.Cpu.Flags
use reference_workload.Cpu.Registers.{Cpu, normalize_widths}
use reference_workload.Cpu.Machine.{Bus, Action, pure, gets, ◌>>=◌, ◌>>◌, modify, read, idle}
use reference_workload.Cpu.Stack.{
  fetch8, fetch16, pull8, push16, pull16, push8_n, pull8_n, push16_n, pull16_n,
}
use reference_workload.Cpu.Interrupts.{brk, cop, service_interrupt}
use reference_workload.Cpu.Addressing.{idle_if}
use reference_workload.Cpu.Exec.Operands.{Arm}

-- `off as i8 as i16`, as a bit pattern.
unfoldable pub sign_extend : ℕ → ℕ
sign_extend off = if ltb off 0x80 then off else off + 0xFF00

-- P as RTI leaves it before the widths are reconciled.
unfoldable pub restored_status : Bool → ℕ → ℕ
restored_status emulated p = if emulated then bit_or (bit_or p Flags.m) Flags.x else p

module _ {S : Type 0} ⦃bus : Bus S⦄ where
  abbrev pub set_pc : ℕ → Action S (Unit {0})
  set_pc addr = modify (λ r. record r { pc = addr })

  abbrev pub set_pbr : ℕ → Action S (Unit {0})
  set_pbr bank = modify (λ r. record r { pbr = bank })

  -- The branch to an offset, when it is taken.
  unfoldable pub take_branch : ℕ → Action S (Unit {0})
  unfolding sign_extend idle_if
  take_branch off = do
    idle
    old ← gets (λ r. r.pc)
    let new = add16 old (sign_extend off)
    emulated ← gets (λ r. r.e)
    idle_if (emulated && not (bit_and old 0xFF00 == bit_and new 0xFF00))
    set_pc new

  unfoldable pub branch : (Cpu → Bool) → Action S (Unit {0})
  unfolding take_branch
  branch test = do take ← gets test; off ← fetch8; if take then take_branch off else pure tt

  unfoldable pub branch_long : Action S (Unit {0})
  branch_long = do off ← fetch16; idle; modify (λ r. record r { pc = add16 r.pc off })

  unfoldable pub branch_arms : List (Arm S)
  unfolding branch branch_long
  branch_arms =
      (0x90, branch (λ r. not (has r.p Flags.c)))
      ∷ (0xB0, branch (λ r. has r.p Flags.c))
      ∷ (0xF0, branch (λ r. has r.p Flags.z))
      ∷ (0xD0, branch (λ r. not (has r.p Flags.z)))
      ∷ (0x30, branch (λ r. has r.p Flags.n))
      ∷ (0x10, branch (λ r. not (has r.p Flags.n)))
      ∷ (0x50, branch (λ r. not (has r.p Flags.v)))
      ∷ (0x70, branch (λ r. has r.p Flags.v))
      ∷ (0x80, branch (λ r. true))
      ∷ (0x82, branch_long)
      ∷ []

  -- JMP absolute and JML absolute long.
  unfoldable pub jmp : Action S (Unit {0})
  jmp = do addr ← fetch16; set_pc addr

  unfoldable pub jml : Action S (Unit {0})
  jml = do lo ← fetch16; bank ← fetch8; set_pc lo; set_pbr bank

  -- JMP (absolute).
  unfoldable pub jmp_indirect : Action S (Unit {0})
  jmp_indirect = do ptr ← fetch16; lo ← read ptr; hi ← read (add16 ptr 1); set_pc (join lo hi)

  -- The last steps of JMP and JSR (absolute,X): a pointer in the program bank.
  unfoldable pub jump_table : ℕ → Action S (Unit {0})
  jump_table base = do
    idle
    ptr ← gets (λ r. add16 base r.x)
    pa ← gets (λ r. long_address r.pbr ptr)
    pa1 ← gets (λ r. long_address r.pbr (add16 ptr 1))
    lo ← read pa
    hi ← read pa1
    set_pc (join lo hi)

  unfoldable pub jmp_indexed : Action S (Unit {0})
  unfolding jump_table
  jmp_indexed = do base ← fetch16; jump_table base

  -- JML [absolute].
  unfoldable pub jml_indirect : Action S (Unit {0})
  jml_indirect = do
    ptr ← fetch16
    lo ← read ptr
    hi ← read (add16 ptr 1)
    bank ← read (add16 ptr 2)
    set_pc (join lo hi)
    set_pbr bank

  unfoldable pub jsr : Action S (Unit {0})
  jsr = do addr ← fetch16; idle; ret ← gets (λ r. sub16 r.pc 1); push16 ret; set_pc addr

  unfoldable pub jsl : Action S (Unit {0})
  jsl = do
    lo ← fetch16
    old ← gets (λ r. r.pbr)
    push8_n old
    idle
    bank ← fetch8
    ret ← gets (λ r. sub16 r.pc 1)
    push16_n ret
    set_pbr bank
    set_pc lo

  unfoldable pub jsr_indexed : Action S (Unit {0})
  unfolding jump_table
  jsr_indexed = do
    lo ← fetch8
    ret ← gets (λ r. r.pc)
    push16 ret
    hi ← fetch8
    jump_table (join lo hi)

  unfoldable pub rts : Action S (Unit {0})
  rts = do idle; idle; ret ← pull16; idle; set_pc (add16 ret 1)

  unfoldable pub rtl : Action S (Unit {0})
  rtl = do idle; idle; ret ← pull16_n; bank ← pull8_n; set_pc (add16 ret 1); set_pbr bank

  unfoldable pub rti_bank : ℕ → Action S (Unit {0})
  rti_bank addr = do bank ← pull8; set_pc addr; set_pbr bank

  -- RTI up to `self.normalize_widths()`.
  unfoldable pub rti_pulls : Action S (Unit {0})
  unfolding restored_status rti_bank
  rti_pulls = do
    idle
    idle
    emulated ← gets (λ r. r.e)
    p ← pull8
    modify (λ r. record r { p = restored_status emulated p })
    lo ← pull8
    hi ← pull8
    if emulated then set_pc (join lo hi) else rti_bank (join lo hi)

  unfoldable pub op_rti : Action S (Unit {0})
  unfolding rti_pulls
  op_rti = do rti_pulls; modify normalize_widths

  -- BRK and COP: the signature byte is fetched first.
  unfoldable pub op_brk : Action S (Unit {0})
  op_brk = do signature ← fetch8; service_interrupt brk

  unfoldable pub op_cop : Action S (Unit {0})
  op_cop = do signature ← fetch8; service_interrupt cop

  unfoldable pub jump_arms : List (Arm S)
  jump_arms =
      (0x4C, jmp)
      ∷ (0x5C, jml)
      ∷ (0x6C, jmp_indirect)
      ∷ (0x7C, jmp_indexed)
      ∷ (0xDC, jml_indirect)
      ∷ (0x20, jsr)
      ∷ (0x22, jsl)
      ∷ (0xFC, jsr_indexed)
      ∷ (0x60, rts)
      ∷ (0x6B, rtl)
      ∷ (0x40, op_rti)
      ∷ (0x00, op_brk)
      ∷ (0x02, op_cop)
      ∷ []
