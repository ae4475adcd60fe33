-- ===== src/Cpu/Exec/Safe/Operands.antt =====
-- The shapes of the arms keep the register invariant, and reach 24-bit addresses only.
use reference_workload.Base.{List, All, ℕ, arith, u8, not8, not16}
use reference_workload.Base.Bits.{bit_or-lt, bit_and-le}
use reference_workload.Cpu.Registers.{Cpu, m8, x8}
use reference_workload.Cpu.Registers.WellFormed.{IsWf, set_flag-IsWf, z-IsStatus}
use reference_workload.Cpu.Machine.{Bus, Action, ◌>>=◌, modify}
use reference_workload.Cpu.Machine.Ensures.{
  IsSafeBus, IsWord, IsAny, Ensures, Ensures-bind, Ensures-if, Ensures-modify, Ensures-run,
  Ensures-idle,
}
use reference_workload.Cpu.Alu.Safe.{op_compare-IsWf}
use reference_workload.Cpu.Logic.Shifts.{IsResult, if-IsResult}
use reference_workload.Cpu.Stack.Safe.{IsWf-IsLoose, fetch8-Ensures, fetch16-Ensures}
use reference_workload.Cpu.Addressing.{Ea}
use reference_workload.Cpu.Addressing.Access.{
  IsEa, gets-IsAny, byte-IsWord, read8-Ensures, read16-Ensures, write8-Ensures, write16-Ensures,
  read_m-Ensures, write_m-Ensures,
}
use reference_workload.Cpu.Exec.Operands.{
  Arm, compare_a, compare_x, compare_y, trb, tsb, imm_m, imm_x, read_x, write_x, use_imm_m,
  use_imm_x, use_m, use_x, store_m, store_x, rmw_m, modify_m, op_trb, op_tsb,
}

-- Every arm of a table keeps the register invariant, and stays within the bus.
abbrev pub AllSafe : {S : Type 0} → (S → Type 0) → List (Arm S) → Type 0
AllSafe keep arms = All (λ arm. Ensures IsWf keep arm.1 IsAny) arms

-- An operation on a word that keeps the register invariant, and a read-modify-write one.
abbrev pub IsOp : (ℕ → Cpu → Cpu) → Type 0
IsOp op = (v : ℕ) (r : Cpu) → IsWord v → IsWf r → IsWf (op v r)

abbrev pub IsRmw : (ℕ → Cpu → ℕ × Cpu) → Type 0
IsRmw f = (v : ℕ) (r : Cpu) → IsWord v → IsWf r → IsResult (f v r)

abbrev pub IsReg : (Cpu → ℕ) → Type 0
IsReg reg = (r : Cpu) → IsWf r → IsWord (reg r)

pub compare_a-IsOp : IsOp compare_a
compare_a-IsOp v r h w = op_compare-IsWf r.a v (m8 r) r w

pub compare_x-IsOp : IsOp compare_x
compare_x-IsOp v r h w = op_compare-IsWf r.x v (x8 r) r w

pub compare_y-IsOp : IsOp compare_y
compare_y-IsOp v r h w = op_compare-IsWf r.y v (x8 r) r w

trb-IsRmw : IsRmw trb
unfolding trb
trb-IsRmw v r h w =
    if-IsResult (m8 r) _ _
      (omega (arith, bit_and-le (u8 v) (not8 (u8 r.a))), set_flag-IsWf _ _ _ z-IsStatus w)
      (omega (arith, bit_and-le v (not16 r.a)), set_flag-IsWf _ _ _ z-IsStatus w)

tsb-IsRmw : IsRmw tsb
unfolding tsb
tsb-IsRmw v r h w =
    if-IsResult (m8 r) _ _
      (bit_or-lt 16 _ _ (omega arith) (omega arith), set_flag-IsWf _ _ _ z-IsStatus w)
      (bit_or-lt 16 _ _ h w.a_fits, set_flag-IsWf _ _ _ z-IsStatus w)

module _ {S : Type 0} ⦃bus : Bus S⦄ {keep : S → Type 0} (safe : IsSafeBus bus keep) where
  imm_m-Ensures : Ensures IsWf keep imm_m IsWord
  unfolding imm_m
  imm_m-Ensures = Ensures-bind (gets-IsAny safe m8) λ eight _.
      Ensures-if eight _ _ (byte-IsWord safe (fetch8-Ensures IsWf-IsLoose safe))
        (fetch16-Ensures IsWf-IsLoose safe)

  imm_x-Ensures : Ensures IsWf keep imm_x IsWord
  unfolding imm_x
  imm_x-Ensures = Ensures-bind (gets-IsAny safe x8) λ eight _.
      Ensures-if eight _ _ (byte-IsWord safe (fetch8-Ensures IsWf-IsLoose safe))
        (fetch16-Ensures IsWf-IsLoose safe)

  read_x-Ensures : (ea : Ea) → IsEa ea → Ensures IsWf keep (read_x ea) IsWord
  unfolding read_x
  read_x-Ensures ea h = Ensures-bind (gets-IsAny safe x8) λ eight _.
      Ensures-if eight _ _ (byte-IsWord safe (read8-Ensures safe ea h)) (read16-Ensures safe ea h)

  write_x-Ensures : (ea : Ea) (v : ℕ) → IsEa ea → Ensures IsWf keep (write_x ea v) IsAny
  unfolding write_x
  write_x-Ensures ea v h = Ensures-bind (gets-IsAny safe x8) λ eight _.
      Ensures-if eight _ _ (write8-Ensures safe ea _ h (omega arith)) (write16-Ensures safe ea v h)

  operate :
      {op : ℕ → Cpu → Cpu} → IsOp op → (v : ℕ) → IsWord v → Ensures IsWf keep (modify (op v)) IsAny
  operate law v h = Ensures-modify _ (λ r w. law v r h w)

  pub use_imm_m-Ensures : {op : ℕ → Cpu → Cpu} → IsOp op → Ensures IsWf keep (use_imm_m op) IsAny
  unfolding use_imm_m
  use_imm_m-Ensures law = Ensures-bind imm_m-Ensures λ v h. operate law v h

  pub use_imm_x-Ensures : {op : ℕ → Cpu → Cpu} → IsOp op → Ensures IsWf keep (use_imm_x op) IsAny
  unfolding use_imm_x
  use_imm_x-Ensures law = Ensures-bind imm_x-Ensures λ v h. operate law v h

  module _ {resolve : Action S Ea} (resolved : Ensures IsWf keep resolve IsEa) where
    pub use_m-Ensures : {op : ℕ → Cpu → Cpu} → IsOp op → Ensures IsWf keep (use_m resolve op) IsAny
    unfolding use_m
    use_m-Ensures law =
        Ensures-bind resolved λ ea p. Ensures-bind (read_m-Ensures safe ea p) λ v h. operate law v h

    pub use_x-Ensures : {op : ℕ → Cpu → Cpu} → IsOp op → Ensures IsWf keep (use_x resolve op) IsAny
    unfolding use_x
    use_x-Ensures law =
        Ensures-bind resolved λ ea p. Ensures-bind (read_x-Ensures ea p) λ v h. operate law v h

    pub store_m-Ensures : (reg : Cpu → ℕ) → Ensures IsWf keep (store_m resolve reg) IsAny
    unfolding store_m
    store_m-Ensures reg =
        Ensures-bind resolved
          λ ea p. Ensures-bind (gets-IsAny safe reg) λ v _. write_m-Ensures safe ea v p

    pub store_x-Ensures : (reg : Cpu → ℕ) → Ensures IsWf keep (store_x resolve reg) IsAny
    unfolding store_x
    store_x-Ensures reg =
        Ensures-bind resolved
          λ ea p. Ensures-bind (gets-IsAny safe reg) λ v _. write_x-Ensures ea v p

  rmw_m-Ensures :
      {f : ℕ → Cpu → ℕ × Cpu} (ea : Ea) → IsEa ea → IsRmw f → Ensures IsWf keep (rmw_m ea f) IsAny
  unfolding rmw_m
  rmw_m-Ensures ea p law = Ensures-bind (read_m-Ensures safe ea p) λ v h.
      Ensures-bind (Ensures-idle safe) λ _ _.
        Ensures-bind (Ensures-run {Q = IsWord} _ (λ r w. law v r h w))
          λ t _. write_m-Ensures safe ea t p

  pub modify_m-Ensures :
      {resolve : Action S Ea} {f : ℕ → Cpu → ℕ × Cpu}
      → Ensures IsWf keep resolve IsEa
      → IsRmw f
      → Ensures IsWf keep (modify_m resolve f) IsAny
  unfolding modify_m
  modify_m-Ensures resolved law = Ensures-bind resolved λ ea p. rmw_m-Ensures ea p law

  pub trb-Ensures :
      {resolve : Action S Ea}
      → Ensures IsWf keep resolve IsEa
      → Ensures IsWf keep (resolve >>= op_trb) IsAny
  unfolding op_trb
  trb-Ensures resolved = Ensures-bind resolved λ ea p. rmw_m-Ensures ea p trb-IsRmw

  pub tsb-Ensures :
      {resolve : Action S Ea}
      → Ensures IsWf keep resolve IsEa
      → Ensures IsWf keep (resolve >>= op_tsb) IsAny
  unfolding op_tsb
  tsb-Ensures resolved = Ensures-bind resolved λ ea p. rmw_m-Ensures ea p tsb-IsRmw
