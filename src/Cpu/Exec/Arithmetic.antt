-- ===== src/Cpu/Exec/Arithmetic.antt =====
-- Arithmetic and comparison arms of `execute`, crates/refwork-emu/src/cpu/exec.rs.
use reference_workload.Base.{List, [], ◌∷◌, false}
use reference_workload.Cpu.Machine.{Bus}
use reference_workload.Cpu.Alu.{op_adc, op_sbc}
use reference_workload.Cpu.Addressing.{
  ea_absolute, ea_absolute_x, ea_absolute_y, ea_direct, ea_direct_x, ea_indirect, ea_indirect_long,
  ea_indirect_long_y, ea_indirect_x, ea_indirect_y, ea_long, ea_long_x, ea_stack_rel,
  ea_stack_rel_y,
}
use reference_workload.Cpu.Exec.Operands.{
  Arm, compare_a, compare_x, compare_y, use_imm_m, use_imm_x, use_m, use_x,
}

module _ {S : Type 0} ⦃bus : Bus S⦄ where
  -- ADC.
  unfoldable pub adc_arms : List (Arm S)
  adc_arms =
      (0x69, use_imm_m op_adc)
      ∷ (0x6D, use_m ea_absolute op_adc)
      ∷ (0x6F, use_m ea_long op_adc)
      ∷ (0x65, use_m ea_direct op_adc)
      ∷ (0x72, use_m ea_indirect op_adc)
      ∷ (0x67, use_m ea_indirect_long op_adc)
      ∷ (0x7D, use_m (ea_absolute_x false) op_adc)
      ∷ (0x7F, use_m ea_long_x op_adc)
      ∷ (0x79, use_m (ea_absolute_y false) op_adc)
      ∷ (0x75, use_m ea_direct_x op_adc)
      ∷ (0x61, use_m ea_indirect_x op_adc)
      ∷ (0x71, use_m (ea_indirect_y false) op_adc)
      ∷ (0x77, use_m ea_indirect_long_y op_adc)
      ∷ (0x63, use_m ea_stack_rel op_adc)
      ∷ (0x73, use_m ea_stack_rel_y op_adc)
      ∷ []

  -- SBC.
  unfoldable pub sbc_arms : List (Arm S)
  sbc_arms =
      (0xE9, use_imm_m op_sbc)
      ∷ (0xED, use_m ea_absolute op_sbc)
      ∷ (0xEF, use_m ea_long op_sbc)
      ∷ (0xE5, use_m ea_direct op_sbc)
      ∷ (0xF2, use_m ea_indirect op_sbc)
      ∷ (0xE7, use_m ea_indirect_long op_sbc)
      ∷ (0xFD, use_m (ea_absolute_x false) op_sbc)
      ∷ (0xFF, use_m ea_long_x op_sbc)
      ∷ (0xF9, use_m (ea_absolute_y false) op_sbc)
      ∷ (0xF5, use_m ea_direct_x op_sbc)
      ∷ (0xE1, use_m ea_indirect_x op_sbc)
      ∷ (0xF1, use_m (ea_indirect_y false) op_sbc)
      ∷ (0xF7, use_m ea_indirect_long_y op_sbc)
      ∷ (0xE3, use_m ea_stack_rel op_sbc)
      ∷ (0xF3, use_m ea_stack_rel_y op_sbc)
      ∷ []

  -- CMP.
  unfoldable pub cmp_arms : List (Arm S)
  cmp_arms =
      (0xC9, use_imm_m compare_a)
      ∷ (0xCD, use_m ea_absolute compare_a)
      ∷ (0xCF, use_m ea_long compare_a)
      ∷ (0xC5, use_m ea_direct compare_a)
      ∷ (0xD2, use_m ea_indirect compare_a)
      ∷ (0xC7, use_m ea_indirect_long compare_a)
      ∷ (0xDD, use_m (ea_absolute_x false) compare_a)
      ∷ (0xDF, use_m ea_long_x compare_a)
      ∷ (0xD9, use_m (ea_absolute_y false) compare_a)
      ∷ (0xD5, use_m ea_direct_x compare_a)
      ∷ (0xC1, use_m ea_indirect_x compare_a)
      ∷ (0xD1, use_m (ea_indirect_y false) compare_a)
      ∷ (0xD7, use_m ea_indirect_long_y compare_a)
      ∷ (0xC3, use_m ea_stack_rel compare_a)
      ∷ (0xD3, use_m ea_stack_rel_y compare_a)
      ∷ []

  -- CPX.
  unfoldable pub cpx_arms : List (Arm S)
  cpx_arms =
      (0xE0, use_imm_x compare_x)
      ∷ (0xEC, use_x ea_absolute compare_x)
      ∷ (0xE4, use_x ea_direct compare_x)
      ∷ []

  -- CPY.
  unfoldable pub cpy_arms : List (Arm S)
  cpy_arms =
      (0xC0, use_imm_x compare_y)
      ∷ (0xCC, use_x ea_absolute compare_y)
      ∷ (0xC4, use_x ea_direct compare_y)
      ∷ []
