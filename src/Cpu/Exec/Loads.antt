-- ===== src/Cpu/Exec/Loads.antt =====
-- Load and store arms of `execute`, crates/refwork-emu/src/cpu/exec.rs.
use reference_workload.Base.{List, [], ◌∷◌, true, false}
use reference_workload.Cpu.Machine.{Bus}
use reference_workload.Cpu.Logic.{set_a_m, set_x_reg, set_y_reg}
use reference_workload.Cpu.Addressing.{
  ea_absolute, ea_absolute_x, ea_absolute_y, ea_direct, ea_direct_x, ea_direct_y, ea_indirect,
  ea_indirect_long, ea_indirect_long_y, ea_indirect_x, ea_indirect_y, ea_long, ea_long_x,
  ea_stack_rel, ea_stack_rel_y,
}
use reference_workload.Cpu.Exec.Operands.{Arm, store_m, store_x, use_imm_m, use_imm_x, use_m, use_x}

module _ {S : Type 0} ⦃bus : Bus S⦄ where
  -- LDA.
  unfoldable pub lda_arms : List (Arm S)
  lda_arms =
      (0xA9, use_imm_m set_a_m)
      ∷ (0xAD, use_m ea_absolute set_a_m)
      ∷ (0xAF, use_m ea_long set_a_m)
      ∷ (0xA5, use_m ea_direct set_a_m)
      ∷ (0xB2, use_m ea_indirect set_a_m)
      ∷ (0xA7, use_m ea_indirect_long set_a_m)
      ∷ (0xBD, use_m (ea_absolute_x false) set_a_m)
      ∷ (0xBF, use_m ea_long_x set_a_m)
      ∷ (0xB9, use_m (ea_absolute_y false) set_a_m)
      ∷ (0xB5, use_m ea_direct_x set_a_m)
      ∷ (0xA1, use_m ea_indirect_x set_a_m)
      ∷ (0xB1, use_m (ea_indirect_y false) set_a_m)
      ∷ (0xB7, use_m ea_indirect_long_y set_a_m)
      ∷ (0xA3, use_m ea_stack_rel set_a_m)
      ∷ (0xB3, use_m ea_stack_rel_y set_a_m)
      ∷ []

  -- LDX.
  unfoldable pub ldx_arms : List (Arm S)
  ldx_arms =
      (0xA2, use_imm_x set_x_reg)
      ∷ (0xAE, use_x ea_absolute set_x_reg)
      ∷ (0xA6, use_x ea_direct set_x_reg)
      ∷ (0xBE, use_x (ea_absolute_y false) set_x_reg)
      ∷ (0xB6, use_x ea_direct_y set_x_reg)
      ∷ []

  -- LDY.
  unfoldable pub ldy_arms : List (Arm S)
  ldy_arms =
      (0xA0, use_imm_x set_y_reg)
      ∷ (0xAC, use_x ea_absolute set_y_reg)
      ∷ (0xA4, use_x ea_direct set_y_reg)
      ∷ (0xBC, use_x (ea_absolute_x false) set_y_reg)
      ∷ (0xB4, use_x ea_direct_x set_y_reg)
      ∷ []

  -- STA.
  unfoldable pub sta_arms : List (Arm S)
  sta_arms =
      (0x8D, store_m ea_absolute (λ r. r.a))
      ∷ (0x8F, store_m ea_long (λ r. r.a))
      ∷ (0x85, store_m ea_direct (λ r. r.a))
      ∷ (0x92, store_m ea_indirect (λ r. r.a))
      ∷ (0x87, store_m ea_indirect_long (λ r. r.a))
      ∷ (0x9D, store_m (ea_absolute_x true) (λ r. r.a))
      ∷ (0x9F, store_m ea_long_x (λ r. r.a))
      ∷ (0x99, store_m (ea_absolute_y true) (λ r. r.a))
      ∷ (0x95, store_m ea_direct_x (λ r. r.a))
      ∷ (0x81, store_m ea_indirect_x (λ r. r.a))
      ∷ (0x91, store_m (ea_indirect_y true) (λ r. r.a))
      ∷ (0x97, store_m ea_indirect_long_y (λ r. r.a))
      ∷ (0x83, store_m ea_stack_rel (λ r. r.a))
      ∷ (0x93, store_m ea_stack_rel_y (λ r. r.a))
      ∷ []

  -- STX.
  unfoldable pub stx_arms : List (Arm S)
  stx_arms =
      (0x8E, store_x ea_absolute (λ r. r.x))
      ∷ (0x86, store_x ea_direct (λ r. r.x))
      ∷ (0x96, store_x ea_direct_y (λ r. r.x))
      ∷ []

  -- STY.
  unfoldable pub sty_arms : List (Arm S)
  sty_arms =
      (0x8C, store_x ea_absolute (λ r. r.y))
      ∷ (0x84, store_x ea_direct (λ r. r.y))
      ∷ (0x94, store_x ea_direct_x (λ r. r.y))
      ∷ []

  -- STZ.
  unfoldable pub stz_arms : List (Arm S)
  stz_arms =
      (0x9C, store_m ea_absolute (λ r. 0))
      ∷ (0x64, store_m ea_direct (λ r. 0))
      ∷ (0x9E, store_m (ea_absolute_x true) (λ r. 0))
      ∷ (0x74, store_m ea_direct_x (λ r. 0))
      ∷ []
