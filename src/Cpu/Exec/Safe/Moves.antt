-- ===== src/Cpu/Exec/Safe/Moves.antt =====
-- The arms of Exec/Moves keep the register invariant.
use reference_workload.Base.{ℕ, Bool, arith, u8, long_address}
use reference_workload.Cpu.Registers.{Cpu, m8, x8, set_flag}
use reference_workload.Cpu.Registers.WellFormed.{
  IsWf, IsStatus, set_flag-IsWf, set_nz8-IsWf, set_nz16-IsWf, set_d-IsWf, set_dbr-IsWf, c-IsStatus,
  v-IsStatus, i-IsStatus, d-IsStatus,
}
use reference_workload.Cpu.Machine.{Bus, Action, modify}
use reference_workload.Cpu.Machine.Ensures.{
  IsSafeBus, IsByte, IsLong, IsAny, Ensures, Ensures-pure, Ensures-gets, Ensures-bind, Ensures-if,
  Ensures-modify, Ensures-read, Ensures-write, Ensures-idle,
}
use reference_workload.Cpu.Logic.Safe.{
  set_a_m-IsWf, set_x_reg-IsWf, set_y_reg-IsWf, set_x_reg_keepwidth-IsWf, set_y_reg_keepwidth-IsWf,
}
use reference_workload.Cpu.Logic.Shifts.{step_index_inc-IsWf, step_index_dec-IsWf}
use reference_workload.Cpu.Stack.{push8, push8_n, push16_n}
use reference_workload.Cpu.Stack.Safe.{
  IsWf-IsLoose, long_address-IsLong, fetch8-Ensures, fetch16-Ensures, push8-Ensures, pull8-Ensures,
  push16-Ensures, pull16-Ensures, push8_n-Ensures, pull8_n-Ensures, push16_n-Ensures,
  pull16_n-Ensures,
}
use reference_workload.Cpu.Addressing.Access.{gets-IsAny, byte-IsWord}
use reference_workload.Cpu.Addressing.Safe.{read_dp_word-Ensures}
use reference_workload.Cpu.Exec.Moves.{
  rep, sep, transfer_arms, push_reg, pull_reg, push_value, plp, plb, pld, per, stack_arms, masked,
  swap_bytes, flag_arms, block_move, op_mvn, op_mvp, halt, wdm, other_arms,
}
use reference_workload.Cpu.Exec.Safe.Operands.{AllSafe, IsOp}
use reference_workload.Cpu.Exec.Safe.Transfers.{
  txa-IsWf, tya-IsWf, tsx-IsWf, txs-IsWf, tcd-IsWf, tdc-IsWf, tcs-IsWf, tsc-IsWf, load_p-IsWf,
  rep-IsWf, sep-IsWf, xce-IsWf, xba-IsWf, count_down-IsWf,
}

module _ {S : Type 0} ⦃bus : Bus S⦄ {keep : S → Type 0} (safe : IsSafeBus bus keep) where
  change : {f : Cpu → Cpu} → ((r : Cpu) → IsWf r → IsWf (f r)) → Ensures IsWf keep (modify f) IsAny
  change h = Ensures-modify _ h

  flagged :
      (mask : ℕ) (on : Bool) → IsStatus mask → Ensures IsWf keep (modify (set_flag mask on)) IsAny
  flagged mask on st = Ensures-modify _ (λ r w. set_flag-IsWf mask on r st w)

  pub transfer_arms-AllSafe : AllSafe keep transfer_arms
  unfolding transfer_arms
  transfer_arms-AllSafe = (
    change (λ r w. set_x_reg_keepwidth-IsWf r.a r w.a_fits w),
    (
      change (λ r w. set_y_reg_keepwidth-IsWf r.a r w.a_fits w),
      (
        change txa-IsWf,
        (
          change tya-IsWf,
          (
            change (λ r w. set_y_reg_keepwidth-IsWf r.x r w.x_fits w),
            (
              change (λ r w. set_x_reg_keepwidth-IsWf r.y r w.y_fits w),
              (
                change tsx-IsWf,
                (
                  change txs-IsWf,
                  (change tcd-IsWf, (change tdc-IsWf, (change tcs-IsWf, (change tsc-IsWf, tt)))),
                ),
              ),
            ),
          ),
        ),
      ),
    ),
  )

  push_reg-Ensures :
      (narrow : Cpu → Bool) (reg : Cpu → ℕ) → Ensures IsWf keep (push_reg narrow reg) IsAny
  unfolding push_reg
  push_reg-Ensures narrow reg = Ensures-bind (gets-IsAny safe _) λ eight _.
      Ensures-bind (gets-IsAny safe _) λ v _.
        Ensures-if eight _ _ (push8-Ensures IsWf-IsLoose safe _ (omega arith))
          (push16-Ensures IsWf-IsLoose safe v)

  pull_reg-Ensures :
      (narrow : Cpu → Bool) {op : ℕ → Cpu → Cpu}
      → IsOp op
      → Ensures IsWf keep (pull_reg narrow op) IsAny
  unfolding pull_reg
  pull_reg-Ensures narrow law = Ensures-bind (gets-IsAny safe _) λ eight _.
      Ensures-bind
        (Ensures-if eight _ _ (byte-IsWord safe (pull8-Ensures IsWf-IsLoose safe))
          (pull16-Ensures IsWf-IsLoose safe))
        λ v h. Ensures-modify _ (λ r w. law v r h w)

  push_byte :
      (push : ℕ → Action S (Unit {0})) (reg : Cpu → ℕ)
      → ((v : ℕ) → IsByte v → Ensures IsWf keep (push v) IsAny)
      → ((r : Cpu) → IsWf r → IsByte (reg r))
      → Ensures IsWf keep (push_value push reg) IsAny
  unfolding push_value
  push_byte push reg h k = Ensures-bind (Ensures-gets {Q = IsByte} reg k) λ v p. h v p

  push_d : Ensures IsWf keep (push_value push16_n (λ r. r.d)) IsAny
  unfolding push_value
  push_d = Ensures-bind (gets-IsAny safe _) λ v _. push16_n-Ensures IsWf-IsLoose safe v

  plp-Ensures : Ensures IsWf keep plp IsAny
  unfolding plp
  plp-Ensures =
      Ensures-bind (pull8-Ensures IsWf-IsLoose safe) λ p h. change (λ r w. load_p-IsWf p r h w.fits)

  plb-Ensures : Ensures IsWf keep plb IsAny
  unfolding plb
  plb-Ensures =
      Ensures-bind (pull8_n-Ensures IsWf-IsLoose safe)
        λ v h. change (λ r w. set_nz8-IsWf _ _ (set_dbr-IsWf r w v h))

  pld-Ensures : Ensures IsWf keep pld IsAny
  unfolding pld
  pld-Ensures =
      Ensures-bind (pull16_n-Ensures IsWf-IsLoose safe)
        λ v h. change (λ r w. set_nz16-IsWf _ _ (set_d-IsWf r w v h))

  per-Ensures : Ensures IsWf keep per IsAny
  unfolding per
  per-Ensures = Ensures-bind (fetch16-Ensures IsWf-IsLoose safe) λ _ _.
      Ensures-bind (Ensures-idle safe)
        λ _ _. Ensures-bind (gets-IsAny safe _) λ v _. push16_n-Ensures IsWf-IsLoose safe v

  pub stack_arms-AllSafe : AllSafe keep stack_arms
  unfolding stack_arms
  stack_arms-AllSafe = (
    push_reg-Ensures m8 _,
    (
      pull_reg-Ensures m8 set_a_m-IsWf,
      (
        push_reg-Ensures x8 _,
        (
          pull_reg-Ensures x8 set_x_reg-IsWf,
          (
            push_reg-Ensures x8 _,
            (
              pull_reg-Ensures x8 set_y_reg-IsWf,
              (
                push_byte push8 _ (push8-Ensures IsWf-IsLoose safe) (λ r w. w.p_fits),
                (
                  plp-Ensures,
                  (
                    push_byte push8_n _ (push8_n-Ensures IsWf-IsLoose safe) (λ r w. w.dbr_fits),
                    (
                      plb-Ensures,
                      (
                        push_d,
                        (
                          pld-Ensures,
                          (
                            push_byte push8 _ (push8-Ensures IsWf-IsLoose safe) (λ r w. w.pbr_fits),
                            (
                              Ensures-bind (fetch16-Ensures IsWf-IsLoose safe)
                                  (λ v _. push16_n-Ensures IsWf-IsLoose safe v),
                              (
                                Ensures-bind (read_dp_word-Ensures safe)
                                    (λ v _. push16_n-Ensures IsWf-IsLoose safe v),
                                (per-Ensures, tt),
                              ),
                            ),
                          ),
                        ),
                      ),
                    ),
                  ),
                ),
              ),
            ),
          ),
        ),
      ),
    ),
  )

  masked-Ensures :
      (op : ℕ → Cpu → Cpu)
      → ((v : ℕ) (r : Cpu) → IsByte v → IsWf r → IsWf (op v r))
      → Ensures IsWf keep (masked op) IsAny
  unfolding masked
  masked-Ensures op law =
      Ensures-bind (fetch8-Ensures IsWf-IsLoose safe)
        λ v h. Ensures-bind (Ensures-idle safe) λ _ _. change (λ r w. law v r h w)

  swap_bytes-Ensures : Ensures IsWf keep swap_bytes IsAny
  unfolding swap_bytes
  swap_bytes-Ensures =
      Ensures-bind (change xba-IsWf)
        λ _ _. Ensures-bind (Ensures-idle safe) λ _ _. change (λ r w. set_nz8-IsWf _ r w)

  pub flag_arms-AllSafe : AllSafe keep flag_arms
  unfolding flag_arms
  flag_arms-AllSafe = (
    flagged _ _ c-IsStatus,
    (
      flagged _ _ c-IsStatus,
      (
        flagged _ _ i-IsStatus,
        (
          flagged _ _ i-IsStatus,
          (
            flagged _ _ v-IsStatus,
            (
              flagged _ _ d-IsStatus,
              (
                flagged _ _ d-IsStatus,
                (
                  masked-Ensures rep (λ v r _ w. rep-IsWf v r w),
                  (masked-Ensures sep sep-IsWf, (change xce-IsWf, (swap_bytes-Ensures, tt))),
                ),
              ),
            ),
          ),
        ),
      ),
    ),
  )

  block_move-Ensures :
      {f : Cpu → Cpu} → ((r : Cpu) → IsWf r → IsWf (f r)) → Ensures IsWf keep (block_move f) IsAny
  unfolding block_move
  block_move-Ensures law = Ensures-bind (fetch8-Ensures IsWf-IsLoose safe) λ to h.
      Ensures-bind (fetch8-Ensures IsWf-IsLoose safe) λ from k.
        Ensures-bind (change (λ r w. set_dbr-IsWf r w (u8 to) (omega arith))) λ _ _.
          Ensures-bind
            (Ensures-gets {Q = IsLong} (λ r. long_address from r.x)
              (λ r w. long_address-IsLong from r.x k w.x_fits))
            λ src p.
              Ensures-bind
                (Ensures-gets {Q = IsLong} (λ r. long_address to r.y)
                  (λ r w. long_address-IsLong to r.y h w.y_fits))
                λ dst q. Ensures-bind (Ensures-read safe src p) λ v l.
                  Ensures-bind (Ensures-write safe dst v q l) λ _ _.
                    Ensures-bind (Ensures-idle safe) λ _ _.
                      Ensures-bind (Ensures-idle safe)
                        λ _ _. Ensures-bind (change law) λ _ _. change count_down-IsWf

  mvn-Ensures : Ensures IsWf keep op_mvn IsAny
  unfolding op_mvn
  mvn-Ensures = block_move-Ensures step_index_inc-IsWf

  mvp-Ensures : Ensures IsWf keep op_mvp IsAny
  unfolding op_mvp
  mvp-Ensures = block_move-Ensures step_index_dec-IsWf

  halt-Ensures :
      {f : Cpu → Cpu} → ((r : Cpu) → IsWf r → IsWf (f r)) → Ensures IsWf keep (halt f) IsAny
  unfolding halt
  halt-Ensures law = Ensures-bind (change law) λ _ _. Ensures-idle safe

  wdm-Ensures : Ensures IsWf keep wdm IsAny
  unfolding wdm
  wdm-Ensures = Ensures-bind (fetch8-Ensures IsWf-IsLoose safe) λ _ _. Ensures-pure tt tt

  pub other_arms-AllSafe : AllSafe keep other_arms
  unfolding other_arms
  other_arms-AllSafe = (
    mvn-Ensures,
    (
      mvp-Ensures,
      (
        halt-Ensures (λ r w. ground arith),
        (halt-Ensures (λ r w. ground arith), (Ensures-pure tt tt, (wdm-Ensures, tt))),
      ),
    ),
  )
