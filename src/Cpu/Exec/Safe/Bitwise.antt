-- ===== src/Cpu/Exec/Safe/Bitwise.antt =====
-- The arms of Exec/Bitwise keep the register invariant.
use reference_workload.Base.{false}
use reference_workload.Cpu.Machine.{Bus}
use reference_workload.Cpu.Machine.Ensures.{IsSafeBus}
use reference_workload.Cpu.Logic.{op_bit, bit_immediate}
use reference_workload.Cpu.Logic.Safe.{
  op_and-IsWf, op_ora-IsWf, op_eor-IsWf, op_bit-IsWf, bit_immediate-IsWf,
}
use reference_workload.Cpu.Addressing.Safe.{
  ea_absolute-Ensures, ea_absolute_x-Ensures, ea_absolute_y-Ensures, ea_direct-Ensures,
  ea_direct_x-Ensures, ea_indirect-Ensures, ea_indirect_long-Ensures, ea_indirect_long_y-Ensures,
  ea_indirect_x-Ensures, ea_indirect_y-Ensures, ea_long-Ensures, ea_long_x-Ensures,
  ea_stack_rel-Ensures, ea_stack_rel_y-Ensures,
}
use reference_workload.Cpu.Exec.Bitwise.{and_arms, ora_arms, eor_arms, bit_arms, trb_tsb_arms}
use reference_workload.Cpu.Exec.Safe.Operands.{
  AllSafe, IsOp, use_imm_m-Ensures, use_m-Ensures, trb-Ensures, tsb-Ensures,
}

bit_law : IsOp op_bit
bit_law v r h w = op_bit-IsWf v r w

bit_immediate_law : IsOp bit_immediate
bit_immediate_law v r h w = bit_immediate-IsWf v r w

module _ {S : Type 0} ⦃bus : Bus S⦄ {keep : S → Type 0} (safe : IsSafeBus bus keep) where
  pub and_arms-AllSafe : AllSafe keep and_arms
  unfolding and_arms
  and_arms-AllSafe = (
    use_imm_m-Ensures safe op_and-IsWf,
    (
      use_m-Ensures safe (ea_absolute-Ensures safe) op_and-IsWf,
      (
        use_m-Ensures safe (ea_long-Ensures safe) op_and-IsWf,
        (
          use_m-Ensures safe (ea_direct-Ensures safe) op_and-IsWf,
          (
            use_m-Ensures safe (ea_indirect-Ensures safe) op_and-IsWf,
            (
              use_m-Ensures safe (ea_indirect_long-Ensures safe) op_and-IsWf,
              (
                use_m-Ensures safe (ea_absolute_x-Ensures safe false) op_and-IsWf,
                (
                  use_m-Ensures safe (ea_long_x-Ensures safe) op_and-IsWf,
                  (
                    use_m-Ensures safe (ea_absolute_y-Ensures safe false) op_and-IsWf,
                    (
                      use_m-Ensures safe (ea_direct_x-Ensures safe) op_and-IsWf,
                      (
                        use_m-Ensures safe (ea_indirect_x-Ensures safe) op_and-IsWf,
                        (
                          use_m-Ensures safe (ea_indirect_y-Ensures safe false) op_and-IsWf,
                          (
                            use_m-Ensures safe (ea_indirect_long_y-Ensures safe) op_and-IsWf,
                            (
                              use_m-Ensures safe (ea_stack_rel-Ensures safe) op_and-IsWf,
                              (use_m-Ensures safe (ea_stack_rel_y-Ensures safe) op_and-IsWf, tt),
                            ),
                          ),
                        ),
                      ),
                    ),
                  ),
                ),
              ),
            ),
          ),
        ),
      ),
    ),
  )

  pub ora_arms-AllSafe : AllSafe keep ora_arms
  unfolding ora_arms
  ora_arms-AllSafe = (
    use_imm_m-Ensures safe op_ora-IsWf,
    (
      use_m-Ensures safe (ea_absolute-Ensures safe) op_ora-IsWf,
      (
        use_m-Ensures safe (ea_long-Ensures safe) op_ora-IsWf,
        (
          use_m-Ensures safe (ea_direct-Ensures safe) op_ora-IsWf,
          (
            use_m-Ensures safe (ea_indirect-Ensures safe) op_ora-IsWf,
            (
              use_m-Ensures safe (ea_indirect_long-Ensures safe) op_ora-IsWf,
              (
                use_m-Ensures safe (ea_absolute_x-Ensures safe false) op_ora-IsWf,
                (
                  use_m-Ensures safe (ea_long_x-Ensures safe) op_ora-IsWf,
                  (
                    use_m-Ensures safe (ea_absolute_y-Ensures safe false) op_ora-IsWf,
                    (
                      use_m-Ensures safe (ea_direct_x-Ensures safe) op_ora-IsWf,
                      (
                        use_m-Ensures safe (ea_indirect_x-Ensures safe) op_ora-IsWf,
                        (
                          use_m-Ensures safe (ea_indirect_y-Ensures safe false) op_ora-IsWf,
                          (
                            use_m-Ensures safe (ea_indirect_long_y-Ensures safe) op_ora-IsWf,
                            (
                              use_m-Ensures safe (ea_stack_rel-Ensures safe) op_ora-IsWf,
                              (use_m-Ensures safe (ea_stack_rel_y-Ensures safe) op_ora-IsWf, tt),
                            ),
                          ),
                        ),
                      ),
                    ),
                  ),
                ),
              ),
            ),
          ),
        ),
      ),
    ),
  )

  pub eor_arms-AllSafe : AllSafe keep eor_arms
  unfolding eor_arms
  eor_arms-AllSafe = (
    use_imm_m-Ensures safe op_eor-IsWf,
    (
      use_m-Ensures safe (ea_absolute-Ensures safe) op_eor-IsWf,
      (
        use_m-Ensures safe (ea_long-Ensures safe) op_eor-IsWf,
        (
          use_m-Ensures safe (ea_direct-Ensures safe) op_eor-IsWf,
          (
            use_m-Ensures safe (ea_indirect-Ensures safe) op_eor-IsWf,
            (
              use_m-Ensures safe (ea_indirect_long-Ensures safe) op_eor-IsWf,
              (
                use_m-Ensures safe (ea_absolute_x-Ensures safe false) op_eor-IsWf,
                (
                  use_m-Ensures safe (ea_long_x-Ensures safe) op_eor-IsWf,
                  (
                    use_m-Ensures safe (ea_absolute_y-Ensures safe false) op_eor-IsWf,
                    (
                      use_m-Ensures safe (ea_direct_x-Ensures safe) op_eor-IsWf,
                      (
                        use_m-Ensures safe (ea_indirect_x-Ensures safe) op_eor-IsWf,
                        (
                          use_m-Ensures safe (ea_indirect_y-Ensures safe false) op_eor-IsWf,
                          (
                            use_m-Ensures safe (ea_indirect_long_y-Ensures safe) op_eor-IsWf,
                            (
                              use_m-Ensures safe (ea_stack_rel-Ensures safe) op_eor-IsWf,
                              (use_m-Ensures safe (ea_stack_rel_y-Ensures safe) op_eor-IsWf, tt),
                            ),
                          ),
                        ),
                      ),
                    ),
                  ),
                ),
              ),
            ),
          ),
        ),
      ),
    ),
  )

  pub bit_arms-AllSafe : AllSafe keep bit_arms
  unfolding bit_arms
  bit_arms-AllSafe = (
    use_imm_m-Ensures safe bit_immediate_law,
    (
      use_m-Ensures safe (ea_absolute-Ensures safe) bit_law,
      (
        use_m-Ensures safe (ea_direct-Ensures safe) bit_law,
        (
          use_m-Ensures safe (ea_absolute_x-Ensures safe false) bit_law,
          (use_m-Ensures safe (ea_direct_x-Ensures safe) bit_law, tt),
        ),
      ),
    ),
  )

  pub trb_tsb_arms-AllSafe : AllSafe keep trb_tsb_arms
  unfolding trb_tsb_arms
  trb_tsb_arms-AllSafe = (
    trb-Ensures safe (ea_absolute-Ensures safe),
    (
      trb-Ensures safe (ea_direct-Ensures safe),
      (
        tsb-Ensures safe (ea_absolute-Ensures safe),
        (tsb-Ensures safe (ea_direct-Ensures safe), tt),
      ),
    ),
  )
