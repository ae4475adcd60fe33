-- ===== src/Cpu/Exec/Safe/Loads.antt =====
-- The arms of Exec/Loads keep the register invariant.
use reference_workload.Base.{true, false}
use reference_workload.Cpu.Machine.{Bus}
use reference_workload.Cpu.Machine.Ensures.{IsSafeBus}
use reference_workload.Cpu.Logic.Safe.{set_a_m-IsWf, set_x_reg-IsWf, set_y_reg-IsWf}
use reference_workload.Cpu.Addressing.Safe.{
  ea_absolute-Ensures, ea_absolute_x-Ensures, ea_absolute_y-Ensures, ea_direct-Ensures,
  ea_direct_x-Ensures, ea_direct_y-Ensures, ea_indirect-Ensures, ea_indirect_long-Ensures,
  ea_indirect_long_y-Ensures, ea_indirect_x-Ensures, ea_indirect_y-Ensures, ea_long-Ensures,
  ea_long_x-Ensures, ea_stack_rel-Ensures, ea_stack_rel_y-Ensures,
}
use reference_workload.Cpu.Exec.Loads.{
  lda_arms, ldx_arms, ldy_arms, sta_arms, stx_arms, sty_arms, stz_arms,
}
use reference_workload.Cpu.Exec.Safe.Operands.{
  AllSafe, use_imm_m-Ensures, use_imm_x-Ensures, use_m-Ensures, use_x-Ensures, store_m-Ensures,
  store_x-Ensures,
}

module _ {S : Type 0} ⦃bus : Bus S⦄ {keep : S → Type 0} (safe : IsSafeBus bus keep) where
  pub lda_arms-AllSafe : AllSafe keep lda_arms
  unfolding lda_arms
  lda_arms-AllSafe = (
    use_imm_m-Ensures safe set_a_m-IsWf,
    (
      use_m-Ensures safe (ea_absolute-Ensures safe) set_a_m-IsWf,
      (
        use_m-Ensures safe (ea_long-Ensures safe) set_a_m-IsWf,
        (
          use_m-Ensures safe (ea_direct-Ensures safe) set_a_m-IsWf,
          (
            use_m-Ensures safe (ea_indirect-Ensures safe) set_a_m-IsWf,
            (
              use_m-Ensures safe (ea_indirect_long-Ensures safe) set_a_m-IsWf,
              (
                use_m-Ensures safe (ea_absolute_x-Ensures safe false) set_a_m-IsWf,
                (
                  use_m-Ensures safe (ea_long_x-Ensures safe) set_a_m-IsWf,
                  (
                    use_m-Ensures safe (ea_absolute_y-Ensures safe false) set_a_m-IsWf,
                    (
                      use_m-Ensures safe (ea_direct_x-Ensures safe) set_a_m-IsWf,
                      (
                        use_m-Ensures safe (ea_indirect_x-Ensures safe) set_a_m-IsWf,
                        (
                          use_m-Ensures safe (ea_indirect_y-Ensures safe false) set_a_m-IsWf,
                          (
                            use_m-Ensures safe (ea_indirect_long_y-Ensures safe) set_a_m-IsWf,
                            (
                              use_m-Ensures safe (ea_stack_rel-Ensures safe) set_a_m-IsWf,
                              (use_m-Ensures safe (ea_stack_rel_y-Ensures safe) set_a_m-IsWf, tt),
                            ),
                          ),
                        ),
                      ),
                    ),
                  ),
                ),
              ),
            ),
          ),
        ),
      ),
    ),
  )

  pub ldx_arms-AllSafe : AllSafe keep ldx_arms
  unfolding ldx_arms
  ldx_arms-AllSafe = (
    use_imm_x-Ensures safe set_x_reg-IsWf,
    (
      use_x-Ensures safe (ea_absolute-Ensures safe) set_x_reg-IsWf,
      (
        use_x-Ensures safe (ea_direct-Ensures safe) set_x_reg-IsWf,
        (
          use_x-Ensures safe (ea_absolute_y-Ensures safe false) set_x_reg-IsWf,
          (use_x-Ensures safe (ea_direct_y-Ensures safe) set_x_reg-IsWf, tt),
        ),
      ),
    ),
  )

  pub ldy_arms-AllSafe : AllSafe keep ldy_arms
  unfolding ldy_arms
  ldy_arms-AllSafe = (
    use_imm_x-Ensures safe set_y_reg-IsWf,
    (
      use_x-Ensures safe (ea_absolute-Ensures safe) set_y_reg-IsWf,
      (
        use_x-Ensures safe (ea_direct-Ensures safe) set_y_reg-IsWf,
        (
          use_x-Ensures safe (ea_absolute_x-Ensures safe false) set_y_reg-IsWf,
          (use_x-Ensures safe (ea_direct_x-Ensures safe) set_y_reg-IsWf, tt),
        ),
      ),
    ),
  )

  pub sta_arms-AllSafe : AllSafe keep sta_arms
  unfolding sta_arms
  sta_arms-AllSafe = (
    store_m-Ensures safe (ea_absolute-Ensures safe) _,
    (
      store_m-Ensures safe (ea_long-Ensures safe) _,
      (
        store_m-Ensures safe (ea_direct-Ensures safe) _,
        (
          store_m-Ensures safe (ea_indirect-Ensures safe) _,
          (
            store_m-Ensures safe (ea_indirect_long-Ensures safe) _,
            (
              store_m-Ensures safe (ea_absolute_x-Ensures safe true) _,
              (
                store_m-Ensures safe (ea_long_x-Ensures safe) _,
                (
                  store_m-Ensures safe (ea_absolute_y-Ensures safe true) _,
                  (
                    store_m-Ensures safe (ea_direct_x-Ensures safe) _,
                    (
                      store_m-Ensures safe (ea_indirect_x-Ensures safe) _,
                      (
                        store_m-Ensures safe (ea_indirect_y-Ensures safe true) _,
                        (
                          store_m-Ensures safe (ea_indirect_long_y-Ensures safe) _,
                          (
                            store_m-Ensures safe (ea_stack_rel-Ensures safe) _,
                            (store_m-Ensures safe (ea_stack_rel_y-Ensures safe) _, tt),
                          ),
                        ),
                      ),
                    ),
                  ),
                ),
              ),
            ),
          ),
        ),
      ),
    ),
  )

  pub stx_arms-AllSafe : AllSafe keep stx_arms
  unfolding stx_arms
  stx_arms-AllSafe = (
    store_x-Ensures safe (ea_absolute-Ensures safe) _,
    (
      store_x-Ensures safe (ea_direct-Ensures safe) _,
      (store_x-Ensures safe (ea_direct_y-Ensures safe) _, tt),
    ),
  )

  pub sty_arms-AllSafe : AllSafe keep sty_arms
  unfolding sty_arms
  sty_arms-AllSafe = (
    store_x-Ensures safe (ea_absolute-Ensures safe) _,
    (
      store_x-Ensures safe (ea_direct-Ensures safe) _,
      (store_x-Ensures safe (ea_direct_x-Ensures safe) _, tt),
    ),
  )

  pub stz_arms-AllSafe : AllSafe keep stz_arms
  unfolding stz_arms
  stz_arms-AllSafe = (
    store_m-Ensures safe (ea_absolute-Ensures safe) _,
    (
      store_m-Ensures safe (ea_direct-Ensures safe) _,
      (
        store_m-Ensures safe (ea_absolute_x-Ensures safe true) _,
        (store_m-Ensures safe (ea_direct_x-Ensures safe) _, tt),
      ),
    ),
  )
