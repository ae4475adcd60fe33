-- ===== src/Cpu/Exec/Safe/Execute.antt =====
-- `execute` keeps the register invariant, whatever the opcode.
use reference_workload.Base.{ℕ, List, [], ◌∷◌, ◌++◌, All-append, ◌==◌}
use reference_workload.Cpu.Registers.WellFormed.{IsWf}
use reference_workload.Cpu.Machine.{Bus}
use reference_workload.Cpu.Machine.Ensures.{IsSafeBus, IsAny, Ensures, Ensures-pure, Ensures-if}
use reference_workload.Cpu.Exec.{select, data_arms, arms, execute}
use reference_workload.Cpu.Exec.Operands.{Arm}
use reference_workload.Cpu.Exec.Arithmetic.{adc_arms, sbc_arms, cmp_arms, cpx_arms, cpy_arms}
use reference_workload.Cpu.Exec.Bitwise.{and_arms, ora_arms, eor_arms, trb_tsb_arms}
use reference_workload.Cpu.Exec.Loads.{
  lda_arms, ldx_arms, ldy_arms, sta_arms, stx_arms, sty_arms, stz_arms,
}
use reference_workload.Cpu.Exec.Counting.{
  inc_dec_a_arms, inc_dec_arms, index_arms, asl_arms, lsr_arms, rol_arms, ror_arms,
}
use reference_workload.Cpu.Exec.Control.{branch_arms, jump_arms}
use reference_workload.Cpu.Exec.Moves.{transfer_arms, stack_arms, flag_arms}
use reference_workload.Cpu.Exec.Safe.Operands.{AllSafe}
use reference_workload.Cpu.Exec.Safe.Arithmetic.{
  adc_arms-AllSafe, sbc_arms-AllSafe, cmp_arms-AllSafe, cpx_arms-AllSafe, cpy_arms-AllSafe,
}
use reference_workload.Cpu.Exec.Safe.Bitwise.{
  and_arms-AllSafe, ora_arms-AllSafe, eor_arms-AllSafe, bit_arms-AllSafe, trb_tsb_arms-AllSafe,
}
use reference_workload.Cpu.Exec.Safe.Loads.{
  lda_arms-AllSafe, ldx_arms-AllSafe, ldy_arms-AllSafe, sta_arms-AllSafe, stx_arms-AllSafe,
  sty_arms-AllSafe, stz_arms-AllSafe,
}
use reference_workload.Cpu.Exec.Safe.Counting.{
  inc_dec_a_arms-AllSafe, inc_dec_arms-AllSafe, index_arms-AllSafe, asl_arms-AllSafe,
  lsr_arms-AllSafe, rol_arms-AllSafe, ror_arms-AllSafe,
}
use reference_workload.Cpu.Exec.Safe.Control.{branch_arms-AllSafe, jump_arms-AllSafe}
use reference_workload.Cpu.Exec.Safe.Moves.{
  transfer_arms-AllSafe, stack_arms-AllSafe, flag_arms-AllSafe, other_arms-AllSafe,
}

module _ {S : Type 0} ⦃bus : Bus S⦄ {keep : S → Type 0} (safe : IsSafeBus bus keep) where
  join_tables : (xs ys : List (Arm S)) → AllSafe keep xs → AllSafe keep ys → AllSafe keep (xs ++ ys)
  join_tables xs ys h k = All-append _ xs ys h k

  data_arms-AllSafe : AllSafe keep data_arms
  unfolding data_arms
  data_arms-AllSafe =
      (join_tables adc_arms _ (adc_arms-AllSafe safe) (
        join_tables sbc_arms _ (sbc_arms-AllSafe safe) (
          join_tables and_arms _ (and_arms-AllSafe safe) (
            join_tables ora_arms _ (ora_arms-AllSafe safe) (
              join_tables eor_arms _ (eor_arms-AllSafe safe) (
                join_tables cmp_arms _ (cmp_arms-AllSafe safe) (
                  join_tables cpx_arms _ (cpx_arms-AllSafe safe) (
                    join_tables cpy_arms _ (cpy_arms-AllSafe safe) (
                      join_tables lda_arms _ (lda_arms-AllSafe safe) (
                        join_tables ldx_arms _ (ldx_arms-AllSafe safe) (
                          join_tables ldy_arms _ (ldy_arms-AllSafe safe) (
                            join_tables sta_arms _ (sta_arms-AllSafe safe) (
                              join_tables stx_arms _ (stx_arms-AllSafe safe) (
                                join_tables sty_arms _ (sty_arms-AllSafe safe) (
                                  join_tables stz_arms _ (stz_arms-AllSafe safe)
                                    (bit_arms-AllSafe safe))))))))))))))))

  arms-AllSafe : AllSafe keep arms
  unfolding arms
  arms-AllSafe = join_tables data_arms _ data_arms-AllSafe (
      join_tables trb_tsb_arms _ (trb_tsb_arms-AllSafe safe) (
        join_tables inc_dec_a_arms _ (inc_dec_a_arms-AllSafe safe) (
          join_tables inc_dec_arms _ (inc_dec_arms-AllSafe safe) (
            join_tables index_arms _ (index_arms-AllSafe safe) (
              join_tables asl_arms _ (asl_arms-AllSafe safe) (
                join_tables lsr_arms _ (lsr_arms-AllSafe safe) (
                  join_tables rol_arms _ (rol_arms-AllSafe safe) (
                    join_tables ror_arms _ (ror_arms-AllSafe safe) (
                      join_tables branch_arms _ (branch_arms-AllSafe safe) (
                        join_tables jump_arms _ (jump_arms-AllSafe safe) (
                          join_tables transfer_arms _ (transfer_arms-AllSafe safe) (
                            join_tables stack_arms _ (stack_arms-AllSafe safe) (
                              join_tables flag_arms _ (flag_arms-AllSafe safe)
                                (other_arms-AllSafe safe))))))))))))))

  select-Ensures :
      (opcode : ℕ) (table : List (Arm S))
      → AllSafe keep table
      → Ensures IsWf keep (select opcode table) IsAny
  unfolding select
  select-Ensures opcode [] h = Ensures-pure tt tt
  select-Ensures opcode ((code, body) ∷ rest) h =
      Ensures-if (code == opcode) _ _ h.0 (select-Ensures opcode rest h.1)

  pub execute-Ensures : (opcode : ℕ) → Ensures IsWf keep (execute opcode) IsAny
  unfolding execute
  execute-Ensures opcode = select-Ensures opcode arms arms-AllSafe
