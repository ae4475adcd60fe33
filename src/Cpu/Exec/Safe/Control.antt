-- ===== src/Cpu/Exec/Safe/Control.antt =====
-- The arms of Exec/Control keep the register invariant.
use reference_workload.Base.{ℕ, Bool, true, false, arith, add16, long_address}
use reference_workload.Base.Bits.{bit_or-lt}
use reference_workload.Cpu.Registers.{Cpu}
use reference_workload.Cpu.Registers.WellFormed.{
  IsFit, IsWf, set_pc-IsWf, set_pbr-IsWf, normalize_widths-IsWf,
}
use reference_workload.Cpu.Machine.{Bus, gets, ◌>>=◌, modify, read}
use reference_workload.Cpu.Machine.Ensures.{
  IsSafeBus, IsByte, IsWord, IsLong, IsAny, Ensures, Ensures-pure, Ensures-gets, Ensures-bind,
  Ensures-if, Ensures-modify, Ensures-read, Ensures-idle,
}
use reference_workload.Cpu.Stack.Safe.{
  IsFit-IsLoose, IsWf-IsLoose, join-IsWord, long_address-IsLong, fetch8-Ensures, fetch16-Ensures,
  pull8-Ensures, push16-Ensures, pull16-Ensures, push8_n-Ensures, pull8_n-Ensures, push16_n-Ensures,
  pull16_n-Ensures,
}
use reference_workload.Cpu.Stack.{fetch8, fetch16, pull8}
use reference_workload.Cpu.Interrupts.{brk, cop}
use reference_workload.Cpu.Interrupts.Safe.{service_interrupt-Ensures}
use reference_workload.Cpu.Addressing.Access.{gets-IsAny, idle_if-Ensures}
use reference_workload.Cpu.Exec.Control.{
  set_pc, set_pbr, restored_status, take_branch, branch, branch_long, branch_arms, jmp, jml,
  jmp_indirect, jump_table, jmp_indexed, jml_indirect, jsr, jsl, jsr_indexed, rts, rtl, rti_bank,
  rti_pulls, op_rti, op_brk, op_cop, jump_arms,
}
use reference_workload.Cpu.Exec.Safe.Operands.{AllSafe}

module _ {S : Type 0} ⦃bus : Bus S⦄ {keep : S → Type 0} (safe : IsSafeBus bus keep) where
  pc_to : (a : ℕ) → IsWord a → Ensures IsWf keep (set_pc a) IsAny
  pc_to a h = Ensures-modify _ (λ r w. set_pc-IsWf r w a h)

  bank_to : (a : ℕ) → IsByte a → Ensures IsWf keep (set_pbr a) IsAny
  bank_to a h = Ensures-modify _ (λ r w. set_pbr-IsWf r w a h)

  byte-IsWord :
      (f : Cpu → ℕ) → ((r : Cpu) → IsWf r → IsWord (f r)) → Ensures IsWf keep (gets f) IsWord
  byte-IsWord f h = Ensures-gets f h

  fetch : Ensures IsWf keep fetch8 IsByte
  fetch = fetch8-Ensures IsWf-IsLoose safe

  fetch-IsWord : Ensures IsWf keep fetch16 IsWord
  fetch-IsWord = fetch16-Ensures IsWf-IsLoose safe

  read_word : (a : ℕ) → IsWord a → Ensures IsWf keep (read a) IsByte
  read_word a h = Ensures-read safe a (omega arith)

  take_branch-Ensures : (off : ℕ) → Ensures IsWf keep (take_branch off) IsAny
  unfolding take_branch
  take_branch-Ensures off = Ensures-bind (Ensures-idle safe) λ _ _.
      Ensures-bind (gets-IsAny safe _) λ old _.
        Ensures-bind (gets-IsAny safe _)
          λ e _. Ensures-bind (idle_if-Ensures safe _) λ _ _. pc_to _ (omega arith)

  branch-Ensures : (test : Cpu → Bool) → Ensures IsWf keep (branch test) IsAny
  unfolding branch
  branch-Ensures test = Ensures-bind (gets-IsAny safe test) λ t _.
      Ensures-bind fetch λ off _. Ensures-if t _ _ (take_branch-Ensures off) (Ensures-pure tt tt)

  branch_long-Ensures : Ensures IsWf keep branch_long IsAny
  unfolding branch_long
  branch_long-Ensures = Ensures-bind fetch-IsWord λ off _.
      Ensures-bind (Ensures-idle safe)
        λ _ _. Ensures-modify _ (λ r w. set_pc-IsWf r w _ (omega arith))

  pub branch_arms-AllSafe : AllSafe keep branch_arms
  unfolding branch_arms
  branch_arms-AllSafe = (
    branch-Ensures _,
    (
      branch-Ensures _,
      (
        branch-Ensures _,
        (
          branch-Ensures _,
          (
            branch-Ensures _,
            (
              branch-Ensures _,
              (branch-Ensures _, (branch-Ensures _, (branch-Ensures _, (branch_long-Ensures, tt)))),
            ),
          ),
        ),
      ),
    ),
  )

  jmp-Ensures : Ensures IsWf keep jmp IsAny
  unfolding jmp
  jmp-Ensures = Ensures-bind fetch-IsWord pc_to

  jml-Ensures : Ensures IsWf keep jml IsAny
  unfolding jml
  jml-Ensures =
      Ensures-bind fetch-IsWord
        λ lo h. Ensures-bind fetch λ bank k. Ensures-bind (pc_to lo h) λ _ _. bank_to bank k

  jmp_indirect-Ensures : Ensures IsWf keep jmp_indirect IsAny
  unfolding jmp_indirect
  jmp_indirect-Ensures = Ensures-bind fetch-IsWord λ ptr h.
      Ensures-bind (read_word ptr h)
        λ lo p. Ensures-bind (read_word _ (omega arith)) λ hi q. pc_to _ (join-IsWord lo hi p q)

  in_program_bank :
      (ptr : ℕ) → IsWord ptr → Ensures IsWf keep (gets (λ r. long_address r.pbr ptr)) IsLong
  in_program_bank ptr h = Ensures-gets _ (λ r w. long_address-IsLong r.pbr ptr w.pbr_fits h)

  jump_table-Ensures : (base : ℕ) → Ensures IsWf keep (jump_table base) IsAny
  unfolding jump_table
  jump_table-Ensures base = Ensures-bind (Ensures-idle safe) λ _ _.
      Ensures-bind (byte-IsWord (λ r. add16 base r.x) (λ r w. omega arith)) λ ptr h.
        Ensures-bind (in_program_bank ptr h) λ pa k.
          Ensures-bind (in_program_bank (add16 ptr 1) (omega arith)) λ pa1 l.
            Ensures-bind (Ensures-read safe pa k)
              λ lo p. Ensures-bind (Ensures-read safe pa1 l) λ hi q. pc_to _ (join-IsWord lo hi p q)

  jmp_indexed-Ensures : Ensures IsWf keep jmp_indexed IsAny
  unfolding jmp_indexed
  jmp_indexed-Ensures = Ensures-bind fetch-IsWord λ base _. jump_table-Ensures base

  jml_indirect-Ensures : Ensures IsWf keep jml_indirect IsAny
  unfolding jml_indirect
  jml_indirect-Ensures = Ensures-bind fetch-IsWord λ ptr h. Ensures-bind (read_word ptr h) λ lo p.
      Ensures-bind (read_word _ (omega arith)) λ hi q.
        Ensures-bind (read_word _ (omega arith))
          λ bank k. Ensures-bind (pc_to _ (join-IsWord lo hi p q)) λ _ _. bank_to bank k

  jsr-Ensures : Ensures IsWf keep jsr IsAny
  unfolding jsr
  jsr-Ensures = Ensures-bind fetch-IsWord λ addr h. Ensures-bind (Ensures-idle safe) λ _ _.
      Ensures-bind (gets-IsAny safe _)
        λ ret _. Ensures-bind (push16-Ensures IsWf-IsLoose safe ret) λ _ _. pc_to addr h

  jsl-Ensures : Ensures IsWf keep jsl IsAny
  unfolding jsl
  jsl-Ensures = Ensures-bind fetch-IsWord λ lo h.
      Ensures-bind (Ensures-gets {Q = IsByte} (λ r. r.pbr) (λ r w. w.pbr_fits)) λ old k.
        Ensures-bind (push8_n-Ensures IsWf-IsLoose safe old k) λ _ _.
          Ensures-bind (Ensures-idle safe) λ _ _. Ensures-bind fetch λ bank p.
            Ensures-bind (gets-IsAny safe _) λ ret _.
              Ensures-bind (push16_n-Ensures IsWf-IsLoose safe ret)
                λ _ _. Ensures-bind (bank_to bank p) λ _ _. pc_to lo h

  jsr_indexed-Ensures : Ensures IsWf keep jsr_indexed IsAny
  unfolding jsr_indexed
  jsr_indexed-Ensures = Ensures-bind fetch λ lo _. Ensures-bind (gets-IsAny safe _) λ ret _.
      Ensures-bind (push16-Ensures IsWf-IsLoose safe ret)
        λ _ _. Ensures-bind fetch λ hi _. jump_table-Ensures _

  rts-Ensures : Ensures IsWf keep rts IsAny
  unfolding rts
  rts-Ensures = Ensures-bind (Ensures-idle safe) λ _ _. Ensures-bind (Ensures-idle safe) λ _ _.
      Ensures-bind (pull16-Ensures IsWf-IsLoose safe)
        λ ret _. Ensures-bind (Ensures-idle safe) λ _ _. pc_to _ (omega arith)

  rtl-Ensures : Ensures IsWf keep rtl IsAny
  unfolding rtl
  rtl-Ensures = Ensures-bind (Ensures-idle safe) λ _ _. Ensures-bind (Ensures-idle safe) λ _ _.
      Ensures-bind (pull16_n-Ensures IsWf-IsLoose safe) λ ret _.
        Ensures-bind (pull8_n-Ensures IsWf-IsLoose safe)
          λ bank k. Ensures-bind (pc_to _ (omega arith)) λ _ _. bank_to bank k

  -- While RTI pulls, only the bounds hold: the new P may ask for narrower index registers.
  restored_status-IsByte : (e : Bool) (p : ℕ) → IsByte p → IsByte (restored_status e p)
  unfolding restored_status
  restored_status-IsByte true p h = bit_or-lt 8 _ _ (bit_or-lt 8 _ _ h (omega arith)) (omega arith)
  restored_status-IsByte false p h = h

  pull-IsFit : Ensures IsFit keep pull8 IsByte
  pull-IsFit = pull8-Ensures IsFit-IsLoose safe

  pc_to-IsFit : (a : ℕ) → IsWord a → Ensures IsFit keep (set_pc a) IsAny
  pc_to-IsFit a h = Ensures-modify _ (λ r f. omega arith)

  rti_bank-Ensures : (a : ℕ) → IsWord a → Ensures IsFit keep (rti_bank a) IsAny
  unfolding rti_bank
  rti_bank-Ensures a h =
      Ensures-bind pull-IsFit
        λ bank k. Ensures-bind (pc_to-IsFit a h) λ _ _. Ensures-modify _ (λ r f. omega arith)

  rti_pulls-Ensures : Ensures IsFit keep rti_pulls IsAny
  unfolding rti_pulls
  rti_pulls-Ensures = Ensures-bind (Ensures-idle safe) λ _ _.
      Ensures-bind (Ensures-idle safe) λ _ _.
        Ensures-bind {Q = IsAny} (Ensures-gets _ (λ _ _. tt)) λ e _. Ensures-bind pull-IsFit λ p h.
          Ensures-bind (Ensures-modify _ (λ r f. omega (arith, restored_status-IsByte e p h)))
            λ _ _. Ensures-bind pull-IsFit λ lo k. Ensures-bind pull-IsFit λ hi l.
              Ensures-if e _ _ (pc_to-IsFit _ (join-IsWord lo hi k l))
                (rti_bank-Ensures _ (join-IsWord lo hi k l))

  op_rti-Ensures : Ensures IsWf keep op_rti IsAny
  unfolding op_rti ◌>>=◌ modify
  op_rti-Ensures = record {
    at = λ r b w k.
        let (_, f, k') = rti_pulls-Ensures.at r b w.fits k in (tt, normalize_widths-IsWf _ f, k');
  }

  op_brk-Ensures : Ensures IsWf keep op_brk IsAny
  unfolding op_brk
  op_brk-Ensures = Ensures-bind fetch λ _ _. service_interrupt-Ensures safe brk

  op_cop-Ensures : Ensures IsWf keep op_cop IsAny
  unfolding op_cop
  op_cop-Ensures = Ensures-bind fetch λ _ _. service_interrupt-Ensures safe cop

  pub jump_arms-AllSafe : AllSafe keep jump_arms
  unfolding jump_arms
  jump_arms-AllSafe = (
    jmp-Ensures,
    (
      jml-Ensures,
      (
        jmp_indirect-Ensures,
        (
          jmp_indexed-Ensures,
          (
            jml_indirect-Ensures,
            (
              jsr-Ensures,
              (
                jsl-Ensures,
                (
                  jsr_indexed-Ensures,
                  (
                    rts-Ensures,
                    (rtl-Ensures, (op_rti-Ensures, (op_brk-Ensures, (op_cop-Ensures, tt)))),
                  ),
                ),
              ),
            ),
          ),
        ),
      ),
    ),
  )
