-- ===== src/Cpu/Exec.antt =====
-- `execute`, crates/refwork-emu/src/cpu/exec.rs: the match over the opcodes, as a table.
pub mod Operands
pub mod Arithmetic
pub mod Bitwise
pub mod Loads
pub mod Counting
pub mod Control
pub mod Moves
pub mod Safe
use reference_workload.Base.{ℕ, List, [], ◌∷◌, ◌++◌, ◌==◌, if◌then◌else◌}
use reference_workload.Cpu.Machine.{Bus, Action, pure}
use Operands.{Arm}
use Arithmetic.{adc_arms, sbc_arms, cmp_arms, cpx_arms, cpy_arms}
use Bitwise.{and_arms, ora_arms, eor_arms, bit_arms, trb_tsb_arms}
use Loads.{lda_arms, ldx_arms, ldy_arms, sta_arms, stx_arms, sty_arms, stz_arms}
use Counting.{inc_dec_a_arms, inc_dec_arms, index_arms, asl_arms, lsr_arms, rol_arms, ror_arms}
use Control.{branch_arms, jump_arms}
use Moves.{transfer_arms, stack_arms, flag_arms, other_arms}

-- The arm of an opcode; the last clause is for an opcode that has none.
unfoldable pub select : {S : Type 0} → ℕ → List (Arm S) → Action S (Unit {0})
select opcode [] = pure tt
select opcode ((code, body) ∷ rest) =
    let later = select opcode rest in if code == opcode then body else later

module _ {S : Type 0} ⦃bus : Bus S⦄ where
  -- The arms in the order of the source.
  unfoldable pub data_arms : List (Arm S)
  data_arms =
      adc_arms
      ++ (sbc_arms
          ++ (and_arms
              ++ (ora_arms
                  ++ (eor_arms
                      ++ (cmp_arms
                          ++ (cpx_arms
                              ++ (cpy_arms
                                  ++ (lda_arms
                                      ++ (ldx_arms
                                          ++ (ldy_arms
                                              ++ (sta_arms
                                                  ++ (stx_arms
                                                      ++ (sty_arms
                                                          ++ (stz_arms ++ bit_arms))))))))))))))

  unfoldable pub arms : List (Arm S)
  unfolding data_arms
  arms =
      data_arms
      ++ (trb_tsb_arms
          ++ (inc_dec_a_arms
              ++ (inc_dec_arms
                  ++ (index_arms
                      ++ (asl_arms
                          ++ (lsr_arms
                              ++ (rol_arms
                                  ++ (ror_arms
                                      ++ (branch_arms
                                          ++ (jump_arms
                                              ++ (transfer_arms
                                                  ++ (stack_arms
                                                      ++ (flag_arms ++ other_arms)))))))))))))

  unfoldable pub execute : ℕ → Action S (Unit {0})
  unfolding select arms
  execute opcode = select opcode arms
