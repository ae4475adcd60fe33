-- ===== src/Cpu/Exec/Bitwise.antt =====
-- Bitwise arms of `execute`, crates/refwork-emu/src/cpu/exec.rs.
use reference_workload.Base.{List, [], ◌∷◌, false}
use reference_workload.Cpu.Machine.{Bus, ◌>>=◌}
use reference_workload.Cpu.Logic.{bit_immediate, op_and, op_bit, op_eor, op_ora}
use reference_workload.Cpu.Addressing.{
  ea_absolute, ea_absolute_x, ea_absolute_y, ea_direct, ea_direct_x, ea_indirect, ea_indirect_long,
  ea_indirect_long_y, ea_indirect_x, ea_indirect_y, ea_long, ea_long_x, ea_stack_rel,
  ea_stack_rel_y,
}
use reference_workload.Cpu.Exec.Operands.{Arm, op_trb, op_tsb, use_imm_m, use_m}

module _ {S : Type 0} ⦃bus : Bus S⦄ where
  -- AND.
  unfoldable pub and_arms : List (Arm S)
  and_arms =
      (0x29, use_imm_m op_and)
      ∷ (0x2D, use_m ea_absolute op_and)
      ∷ (0x2F, use_m ea_long op_and)
      ∷ (0x25, use_m ea_direct op_and)
      ∷ (0x32, use_m ea_indirect op_and)
      ∷ (0x27, use_m ea_indirect_long op_and)
      ∷ (0x3D, use_m (ea_absolute_x false) op_and)
      ∷ (0x3F, use_m ea_long_x op_and)
      ∷ (0x39, use_m (ea_absolute_y false) op_and)
      ∷ (0x35, use_m ea_direct_x op_and)
      ∷ (0x21, use_m ea_indirect_x op_and)
      ∷ (0x31, use_m (ea_indirect_y false) op_and)
      ∷ (0x37, use_m ea_indirect_long_y op_and)
      ∷ (0x23, use_m ea_stack_rel op_and)
      ∷ (0x33, use_m ea_stack_rel_y op_and)
      ∷ []

  -- ORA.
  unfoldable pub ora_arms : List (Arm S)
  ora_arms =
      (0x09, use_imm_m op_ora)
      ∷ (0x0D, use_m ea_absolute op_ora)
      ∷ (0x0F, use_m ea_long op_ora)
      ∷ (0x05, use_m ea_direct op_ora)
      ∷ (0x12, use_m ea_indirect op_ora)
      ∷ (0x07, use_m ea_indirect_long op_ora)
      ∷ (0x1D, use_m (ea_absolute_x false) op_ora)
      ∷ (0x1F, use_m ea_long_x op_ora)
      ∷ (0x19, use_m (ea_absolute_y false) op_ora)
      ∷ (0x15, use_m ea_direct_x op_ora)
      ∷ (0x01, use_m ea_indirect_x op_ora)
      ∷ (0x11, use_m (ea_indirect_y false) op_ora)
      ∷ (0x17, use_m ea_indirect_long_y op_ora)
      ∷ (0x03, use_m ea_stack_rel op_ora)
      ∷ (0x13, use_m ea_stack_rel_y op_ora)
      ∷ []

  -- EOR.
  unfoldable pub eor_arms : List (Arm S)
  eor_arms =
      (0x49, use_imm_m op_eor)
      ∷ (0x4D, use_m ea_absolute op_eor)
      ∷ (0x4F, use_m ea_long op_eor)
      ∷ (0x45, use_m ea_direct op_eor)
      ∷ (0x52, use_m ea_indirect op_eor)
      ∷ (0x47, use_m ea_indirect_long op_eor)
      ∷ (0x5D, use_m (ea_absolute_x false) op_eor)
      ∷ (0x5F, use_m ea_long_x op_eor)
      ∷ (0x59, use_m (ea_absolute_y false) op_eor)
      ∷ (0x55, use_m ea_direct_x op_eor)
      ∷ (0x41, use_m ea_indirect_x op_eor)
      ∷ (0x51, use_m (ea_indirect_y false) op_eor)
      ∷ (0x57, use_m ea_indirect_long_y op_eor)
      ∷ (0x43, use_m ea_stack_rel op_eor)
      ∷ (0x53, use_m ea_stack_rel_y op_eor)
      ∷ []

  -- BIT.
  unfoldable pub bit_arms : List (Arm S)
  bit_arms =
      (0x89, use_imm_m bit_immediate)
      ∷ (0x2C, use_m ea_absolute op_bit)
      ∷ (0x24, use_m ea_direct op_bit)
      ∷ (0x3C, use_m (ea_absolute_x false) op_bit)
      ∷ (0x34, use_m ea_direct_x op_bit)
      ∷ []

  -- TRB / TSB.
  unfoldable pub trb_tsb_arms : List (Arm S)
  trb_tsb_arms =
      (0x1C, ea_absolute >>= op_trb)
      ∷ (0x14, ea_direct >>= op_trb)
      ∷ (0x0C, ea_absolute >>= op_tsb)
      ∷ (0x04, ea_direct >>= op_tsb)
      ∷ []
