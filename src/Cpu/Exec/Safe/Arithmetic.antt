-- ===== src/Cpu/Exec/Safe/Arithmetic.antt =====
-- The arms of Exec/Arithmetic keep the register invariant.
use reference_workload.Base.{false}
use reference_workload.Cpu.Machine.{Bus}
use reference_workload.Cpu.Machine.Ensures.{IsSafeBus}
use reference_workload.Cpu.Alu.{op_adc, op_sbc}
use reference_workload.Cpu.Alu.Safe.{op_adc-IsWf, op_sbc-IsWf}
use reference_workload.Cpu.Addressing.Safe.{
  ea_absolute-Ensures, ea_absolute_x-Ensures, ea_absolute_y-Ensures, ea_direct-Ensures,
  ea_direct_x-Ensures, ea_indirect-Ensures, ea_indirect_long-Ensures, ea_indirect_long_y-Ensures,
  ea_indirect_x-Ensures, ea_indirect_y-Ensures, ea_long-Ensures, ea_long_x-Ensures,
  ea_stack_rel-Ensures, ea_stack_rel_y-Ensures,
}
use reference_workload.Cpu.Exec.Arithmetic.{adc_arms, sbc_arms, cmp_arms, cpx_arms, cpy_arms}
use reference_workload.Cpu.Exec.Safe.Operands.{
  AllSafe, IsOp, compare_a-IsOp, compare_x-IsOp, compare_y-IsOp, use_imm_m-Ensures,
  use_imm_x-Ensures, use_m-Ensures, use_x-Ensures,
}

adc_law : IsOp op_adc
adc_law v r h w = op_adc-IsWf v r w

sbc_law : IsOp op_sbc
sbc_law v r h w = op_sbc-IsWf v r w

module _ {S : Type 0} ⦃bus : Bus S⦄ {keep : S → Type 0} (safe : IsSafeBus bus keep) where
  pub adc_arms-AllSafe : AllSafe keep adc_arms
  unfolding adc_arms
  adc_arms-AllSafe = (
    use_imm_m-Ensures safe adc_law,
    (
      use_m-Ensures safe (ea_absolute-Ensures safe) adc_law,
      (
        use_m-Ensures safe (ea_long-Ensures safe) adc_law,
        (
          use_m-Ensures safe (ea_direct-Ensures safe) adc_law,
          (
            use_m-Ensures safe (ea_indirect-Ensures safe) adc_law,
            (
              use_m-Ensures safe (ea_indirect_long-Ensures safe) adc_law,
              (
                use_m-Ensures safe (ea_absolute_x-Ensures safe false) adc_law,
                (
                  use_m-Ensures safe (ea_long_x-Ensures safe) adc_law,
                  (
                    use_m-Ensures safe (ea_absolute_y-Ensures safe false) adc_law,
                    (
                      use_m-Ensures safe (ea_direct_x-Ensures safe) adc_law,
                      (
                        use_m-Ensures safe (ea_indirect_x-Ensures safe) adc_law,
                        (
                          use_m-Ensures safe (ea_indirect_y-Ensures safe false) adc_law,
                          (
                            use_m-Ensures safe (ea_indirect_long_y-Ensures safe) adc_law,
                            (
                              use_m-Ensures safe (ea_stack_rel-Ensures safe) adc_law,
                              (use_m-Ensures safe (ea_stack_rel_y-Ensures safe) adc_law, tt),
                            ),
                          ),
                        ),
                      ),
                    ),
                  ),
                ),
              ),
            ),
          ),
        ),
      ),
    ),
  )

  pub sbc_arms-AllSafe : AllSafe keep sbc_arms
  unfolding sbc_arms
  sbc_arms-AllSafe = (
    use_imm_m-Ensures safe sbc_law,
    (
      use_m-Ensures safe (ea_absolute-Ensures safe) sbc_law,
      (
        use_m-Ensures safe (ea_long-Ensures safe) sbc_law,
        (
          use_m-Ensures safe (ea_direct-Ensures safe) sbc_law,
          (
            use_m-Ensures safe (ea_indirect-Ensures safe) sbc_law,
            (
              use_m-Ensures safe (ea_indirect_long-Ensures safe) sbc_law,
              (
                use_m-Ensures safe (ea_absolute_x-Ensures safe false) sbc_law,
                (
                  use_m-Ensures safe (ea_long_x-Ensures safe) sbc_law,
                  (
                    use_m-Ensures safe (ea_absolute_y-Ensures safe false) sbc_law,
                    (
                      use_m-Ensures safe (ea_direct_x-Ensures safe) sbc_law,
                      (
                        use_m-Ensures safe (ea_indirect_x-Ensures safe) sbc_law,
                        (
                          use_m-Ensures safe (ea_indirect_y-Ensures safe false) sbc_law,
                          (
                            use_m-Ensures safe (ea_indirect_long_y-Ensures safe) sbc_law,
                            (
                              use_m-Ensures safe (ea_stack_rel-Ensures safe) sbc_law,
                              (use_m-Ensures safe (ea_stack_rel_y-Ensures safe) sbc_law, tt),
                            ),
                          ),
                        ),
                      ),
                    ),
                  ),
                ),
              ),
            ),
          ),
        ),
      ),
    ),
  )

  pub cmp_arms-AllSafe : AllSafe keep cmp_arms
  unfolding cmp_arms
  cmp_arms-AllSafe = (
    use_imm_m-Ensures safe compare_a-IsOp,
    (
      use_m-Ensures safe (ea_absolute-Ensures safe) compare_a-IsOp,
      (
        use_m-Ensures safe (ea_long-Ensures safe) compare_a-IsOp,
        (
          use_m-Ensures safe (ea_direct-Ensures safe) compare_a-IsOp,
          (
            use_m-Ensures safe (ea_indirect-Ensures safe) compare_a-IsOp,
            (
              use_m-Ensures safe (ea_indirect_long-Ensures safe) compare_a-IsOp,
              (
                use_m-Ensures safe (ea_absolute_x-Ensures safe false) compare_a-IsOp,
                (
                  use_m-Ensures safe (ea_long_x-Ensures safe) compare_a-IsOp,
                  (
                    use_m-Ensures safe (ea_absolute_y-Ensures safe false) compare_a-IsOp,
                    (
                      use_m-Ensures safe (ea_direct_x-Ensures safe) compare_a-IsOp,
                      (
                        use_m-Ensures safe (ea_indirect_x-Ensures safe) compare_a-IsOp,
                        (
                          use_m-Ensures safe (ea_indirect_y-Ensures safe false) compare_a-IsOp,
                          (
                            use_m-Ensures safe (ea_indirect_long_y-Ensures safe) compare_a-IsOp,
                            (
                              use_m-Ensures safe (ea_stack_rel-Ensures safe) compare_a-IsOp,
                              (use_m-Ensures safe (ea_stack_rel_y-Ensures safe) compare_a-IsOp, tt),
                            ),
                          ),
                        ),
                      ),
                    ),
                  ),
                ),
              ),
            ),
          ),
        ),
      ),
    ),
  )

  pub cpx_arms-AllSafe : AllSafe keep cpx_arms
  unfolding cpx_arms
  cpx_arms-AllSafe = (
    use_imm_x-Ensures safe compare_x-IsOp,
    (
      use_x-Ensures safe (ea_absolute-Ensures safe) compare_x-IsOp,
      (use_x-Ensures safe (ea_direct-Ensures safe) compare_x-IsOp, tt),
    ),
  )

  pub cpy_arms-AllSafe : AllSafe keep cpy_arms
  unfolding cpy_arms
  cpy_arms-AllSafe = (
    use_imm_x-Ensures safe compare_y-IsOp,
    (
      use_x-Ensures safe (ea_absolute-Ensures safe) compare_y-IsOp,
      (use_x-Ensures safe (ea_direct-Ensures safe) compare_y-IsOp, tt),
    ),
  )
