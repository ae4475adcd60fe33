-- ===== src/Cpu/Exec/Counting.antt =====
-- Counting, shift and rotation arms of `execute`, crates/refwork-emu/src/cpu/exec.rs.
use reference_workload.Base.{List, [], ◌∷◌, true}
use reference_workload.Cpu.Machine.{Bus, modify}
use reference_workload.Cpu.Logic.{
  alu_asl, alu_dec, alu_inc, alu_lsr, alu_rol, alu_ror, asl_a, dec_a, dex, dey, inc_a, inx, iny,
  lsr_a, rol_a, ror_a,
}
use reference_workload.Cpu.Addressing.{ea_absolute, ea_absolute_x, ea_direct, ea_direct_x}
use reference_workload.Cpu.Exec.Operands.{Arm, modify_m}

module _ {S : Type 0} ⦃bus : Bus S⦄ where
  -- INC / DEC (accumulator).
  unfoldable pub inc_dec_a_arms : List (Arm S)
  inc_dec_a_arms = (0x1A, modify inc_a) ∷ (0x3A, modify dec_a) ∷ []

  -- INC / DEC (memory).
  unfoldable pub inc_dec_arms : List (Arm S)
  inc_dec_arms =
      (0xEE, modify_m ea_absolute alu_inc)
      ∷ (0xE6, modify_m ea_direct alu_inc)
      ∷ (0xFE, modify_m (ea_absolute_x true) alu_inc)
      ∷ (0xF6, modify_m ea_direct_x alu_inc)
      ∷ (0xCE, modify_m ea_absolute alu_dec)
      ∷ (0xC6, modify_m ea_direct alu_dec)
      ∷ (0xDE, modify_m (ea_absolute_x true) alu_dec)
      ∷ (0xD6, modify_m ea_direct_x alu_dec)
      ∷ []

  -- INX / DEX / INY / DEY.
  unfoldable pub index_arms : List (Arm S)
  index_arms =
      (0xE8, modify inx) ∷ (0xCA, modify dex) ∷ (0xC8, modify iny) ∷ (0x88, modify dey) ∷ []

  -- ASL.
  unfoldable pub asl_arms : List (Arm S)
  asl_arms =
      (0x0A, modify asl_a)
      ∷ (0x0E, modify_m ea_absolute alu_asl)
      ∷ (0x06, modify_m ea_direct alu_asl)
      ∷ (0x1E, modify_m (ea_absolute_x true) alu_asl)
      ∷ (0x16, modify_m ea_direct_x alu_asl)
      ∷ []

  -- LSR.
  unfoldable pub lsr_arms : List (Arm S)
  lsr_arms =
      (0x4A, modify lsr_a)
      ∷ (0x4E, modify_m ea_absolute alu_lsr)
      ∷ (0x46, modify_m ea_direct alu_lsr)
      ∷ (0x5E, modify_m (ea_absolute_x true) alu_lsr)
      ∷ (0x56, modify_m ea_direct_x alu_lsr)
      ∷ []

  -- ROL.
  unfoldable pub rol_arms : List (Arm S)
  rol_arms =
      (0x2A, modify rol_a)
      ∷ (0x2E, modify_m ea_absolute alu_rol)
      ∷ (0x26, modify_m ea_direct alu_rol)
      ∷ (0x3E, modify_m (ea_absolute_x true) alu_rol)
      ∷ (0x36, modify_m ea_direct_x alu_rol)
      ∷ []

  -- ROR.
  unfoldable pub ror_arms : List (Arm S)
  ror_arms =
      (0x6A, modify ror_a)
      ∷ (0x6E, modify_m ea_absolute alu_ror)
      ∷ (0x66, modify_m ea_direct alu_ror)
      ∷ (0x7E, modify_m (ea_absolute_x true) alu_ror)
      ∷ (0x76, modify_m ea_direct_x alu_ror)
      ∷ []
