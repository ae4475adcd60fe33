-- ===== src/Cpu/Exec/Safe/Counting.antt =====
-- The arms of Exec/Counting keep the register invariant.
use reference_workload.Base.{true}
use reference_workload.Cpu.Machine.{Bus}
use reference_workload.Cpu.Machine.Ensures.{IsSafeBus, Ensures-modify}
use reference_workload.Cpu.Logic.Safe.{
  inc_a-IsWf, dec_a-IsWf, inx-IsWf, dex-IsWf, iny-IsWf, dey-IsWf,
}
use reference_workload.Cpu.Logic.Shifts.{
  alu_inc-IsResult, alu_dec-IsResult, alu_asl-IsResult, alu_lsr-IsResult, alu_rol-IsResult,
  alu_ror-IsResult, asl_a-IsWf, lsr_a-IsWf, rol_a-IsWf, ror_a-IsWf,
}
use reference_workload.Cpu.Addressing.Safe.{
  ea_absolute-Ensures, ea_absolute_x-Ensures, ea_direct-Ensures, ea_direct_x-Ensures,
}
use reference_workload.Cpu.Exec.Counting.{
  inc_dec_a_arms, inc_dec_arms, index_arms, asl_arms, lsr_arms, rol_arms, ror_arms,
}
use reference_workload.Cpu.Exec.Safe.Operands.{AllSafe, modify_m-Ensures}

module _ {S : Type 0} ⦃bus : Bus S⦄ {keep : S → Type 0} (safe : IsSafeBus bus keep) where
  pub inc_dec_a_arms-AllSafe : AllSafe keep inc_dec_a_arms
  unfolding inc_dec_a_arms
  inc_dec_a_arms-AllSafe = (Ensures-modify _ inc_a-IsWf, (Ensures-modify _ dec_a-IsWf, tt))

  pub inc_dec_arms-AllSafe : AllSafe keep inc_dec_arms
  unfolding inc_dec_arms
  inc_dec_arms-AllSafe = (
    modify_m-Ensures safe (ea_absolute-Ensures safe) alu_inc-IsResult,
    (
      modify_m-Ensures safe (ea_direct-Ensures safe) alu_inc-IsResult,
      (
        modify_m-Ensures safe (ea_absolute_x-Ensures safe true) alu_inc-IsResult,
        (
          modify_m-Ensures safe (ea_direct_x-Ensures safe) alu_inc-IsResult,
          (
            modify_m-Ensures safe (ea_absolute-Ensures safe) alu_dec-IsResult,
            (
              modify_m-Ensures safe (ea_direct-Ensures safe) alu_dec-IsResult,
              (
                modify_m-Ensures safe (ea_absolute_x-Ensures safe true) alu_dec-IsResult,
                (modify_m-Ensures safe (ea_direct_x-Ensures safe) alu_dec-IsResult, tt),
              ),
            ),
          ),
        ),
      ),
    ),
  )

  pub index_arms-AllSafe : AllSafe keep index_arms
  unfolding index_arms
  index_arms-AllSafe = (
    Ensures-modify _ inx-IsWf,
    (Ensures-modify _ dex-IsWf, (Ensures-modify _ iny-IsWf, (Ensures-modify _ dey-IsWf, tt))),
  )

  pub asl_arms-AllSafe : AllSafe keep asl_arms
  unfolding asl_arms
  asl_arms-AllSafe = (
    Ensures-modify _ asl_a-IsWf,
    (
      modify_m-Ensures safe (ea_absolute-Ensures safe) alu_asl-IsResult,
      (
        modify_m-Ensures safe (ea_direct-Ensures safe) alu_asl-IsResult,
        (
          modify_m-Ensures safe (ea_absolute_x-Ensures safe true) alu_asl-IsResult,
          (modify_m-Ensures safe (ea_direct_x-Ensures safe) alu_asl-IsResult, tt),
        ),
      ),
    ),
  )

  pub lsr_arms-AllSafe : AllSafe keep lsr_arms
  unfolding lsr_arms
  lsr_arms-AllSafe = (
    Ensures-modify _ lsr_a-IsWf,
    (
      modify_m-Ensures safe (ea_absolute-Ensures safe) alu_lsr-IsResult,
      (
        modify_m-Ensures safe (ea_direct-Ensures safe) alu_lsr-IsResult,
        (
          modify_m-Ensures safe (ea_absolute_x-Ensures safe true) alu_lsr-IsResult,
          (modify_m-Ensures safe (ea_direct_x-Ensures safe) alu_lsr-IsResult, tt),
        ),
      ),
    ),
  )

  pub rol_arms-AllSafe : AllSafe keep rol_arms
  unfolding rol_arms
  rol_arms-AllSafe = (
    Ensures-modify _ rol_a-IsWf,
    (
      modify_m-Ensures safe (ea_absolute-Ensures safe) alu_rol-IsResult,
      (
        modify_m-Ensures safe (ea_direct-Ensures safe) alu_rol-IsResult,
        (
          modify_m-Ensures safe (ea_absolute_x-Ensures safe true) alu_rol-IsResult,
          (modify_m-Ensures safe (ea_direct_x-Ensures safe) alu_rol-IsResult, tt),
        ),
      ),
    ),
  )

  pub ror_arms-AllSafe : AllSafe keep ror_arms
  unfolding ror_arms
  ror_arms-AllSafe = (
    Ensures-modify _ ror_a-IsWf,
    (
      modify_m-Ensures safe (ea_absolute-Ensures safe) alu_ror-IsResult,
      (
        modify_m-Ensures safe (ea_direct-Ensures safe) alu_ror-IsResult,
        (
          modify_m-Ensures safe (ea_absolute_x-Ensures safe true) alu_ror-IsResult,
          (modify_m-Ensures safe (ea_direct_x-Ensures safe) alu_ror-IsResult, tt),
        ),
      ),
    ),
  )
