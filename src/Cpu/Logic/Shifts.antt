-- ===== src/Cpu/Logic/Shifts.antt =====
-- The read-modify-write primitives give words and keep the register invariant.
use reference_workload.Base.{ℕ, ◌^◌, ◌<◌, Bool, true, false, if◌then◌else◌, arith}
use reference_workload.Base.Bits.{bit_or-lt, bit_and-ones}
use reference_workload.Cpu.Registers.{Cpu, m8}
use reference_workload.Cpu.Registers.WellFormed.{
  IsWf, set_flag-IsWf, set_nz8-IsWf, set_nz16-IsWf, set_a-IsWf, c-IsStatus,
}
use reference_workload.Cpu.Alu.{carry_in}
use reference_workload.Cpu.Alu.Safe.{if-IsWf}
use reference_workload.Cpu.Logic.Safe.{low_from-fits}
use reference_workload.Cpu.Logic.{
  alu_inc, alu_dec, alu_asl, alu_lsr, alu_rol, alu_ror, store_a_m, asl_a, lsr_a, rol_a, ror_a,
  step_index_inc, step_index_dec,
}

-- A word, and registers in their invariant.
abbrev pub IsResult : ℕ × Cpu → Type 0
IsResult (v, r) = (v < 2 ^ 16) × IsWf r

carry_in-le : (r : Cpu) → carry_in r < 2
carry_in-le r = omega (arith, bit_and-ones 1 r.p)

pub if-IsResult :
    (t : Bool) (p q : ℕ × Cpu) → IsResult p → IsResult q → IsResult (if t then p else q)
if-IsResult true p q h k = h
if-IsResult false p q h k = k

pub alu_inc-IsResult : (v : ℕ) (r : Cpu) → v < 2 ^ 16 → IsWf r → IsResult (alu_inc v r)
unfolding alu_inc
alu_inc-IsResult v r h w =
    if-IsResult (m8 r) _ _ (omega arith, set_nz8-IsWf _ _ w) (omega arith, set_nz16-IsWf _ _ w)

pub alu_dec-IsResult : (v : ℕ) (r : Cpu) → v < 2 ^ 16 → IsWf r → IsResult (alu_dec v r)
unfolding alu_dec
alu_dec-IsResult v r h w =
    if-IsResult (m8 r) _ _ (omega arith, set_nz8-IsWf _ _ w) (omega arith, set_nz16-IsWf _ _ w)

pub alu_asl-IsResult : (v : ℕ) (r : Cpu) → v < 2 ^ 16 → IsWf r → IsResult (alu_asl v r)
unfolding alu_asl
alu_asl-IsResult v r h w =
    if-IsResult (m8 r) _ _ (omega arith, set_nz8-IsWf _ _ (set_flag-IsWf _ _ _ c-IsStatus w))
      (omega arith, set_nz16-IsWf _ _ (set_flag-IsWf _ _ _ c-IsStatus w))

pub alu_lsr-IsResult : (v : ℕ) (r : Cpu) → v < 2 ^ 16 → IsWf r → IsResult (alu_lsr v r)
unfolding alu_lsr
alu_lsr-IsResult v r h w =
    if-IsResult (m8 r) _ _ (omega arith, set_nz8-IsWf _ _ (set_flag-IsWf _ _ _ c-IsStatus w))
      (omega arith, set_nz16-IsWf _ _ (set_flag-IsWf _ _ _ c-IsStatus w))

pub alu_rol-IsResult : (v : ℕ) (r : Cpu) → v < 2 ^ 16 → IsWf r → IsResult (alu_rol v r)
unfolding alu_rol
alu_rol-IsResult v r h w =
    if-IsResult (m8 r) _ _
      (
        bit_or-lt 16 _ _ (omega arith) (omega arith),
        set_nz8-IsWf _ _ (set_flag-IsWf _ _ _ c-IsStatus w),
      )
      (
        bit_or-lt 16 _ _ (omega arith) (omega (arith, carry_in-le r)),
        set_nz16-IsWf _ _ (set_flag-IsWf _ _ _ c-IsStatus w),
      )

pub alu_ror-IsResult : (v : ℕ) (r : Cpu) → v < 2 ^ 16 → IsWf r → IsResult (alu_ror v r)
unfolding alu_ror
alu_ror-IsResult v r h w =
    if-IsResult (m8 r) _ _
      (
        bit_or-lt 16 _ _ (omega arith) (omega arith),
        set_nz8-IsWf _ _ (set_flag-IsWf _ _ _ c-IsStatus w),
      )
      (
        bit_or-lt 16 _ _ (omega arith) (omega arith),
        set_nz16-IsWf _ _ (set_flag-IsWf _ _ _ c-IsStatus w),
      )

pub store_a_m-IsWf : (v : ℕ) (r : Cpu) → v < 2 ^ 16 → IsWf r → IsWf (store_a_m v r)
unfolding store_a_m
store_a_m-IsWf v r h w =
    if-IsWf (m8 r) (λ _. set_a-IsWf r w _ (low_from-fits r.a v w.a_fits)) (λ _. set_a-IsWf r w v h)

pub asl_a-IsWf : (r : Cpu) → IsWf r → IsWf (asl_a r)
unfolding asl_a
asl_a-IsWf r w = let (h, k) = alu_asl-IsResult r.a r w.a_fits w in store_a_m-IsWf _ _ h k

pub lsr_a-IsWf : (r : Cpu) → IsWf r → IsWf (lsr_a r)
unfolding lsr_a
lsr_a-IsWf r w = let (h, k) = alu_lsr-IsResult r.a r w.a_fits w in store_a_m-IsWf _ _ h k

pub rol_a-IsWf : (r : Cpu) → IsWf r → IsWf (rol_a r)
unfolding rol_a
rol_a-IsWf r w = let (h, k) = alu_rol-IsResult r.a r w.a_fits w in store_a_m-IsWf _ _ h k

pub ror_a-IsWf : (r : Cpu) → IsWf r → IsWf (ror_a r)
unfolding ror_a
ror_a-IsWf r w = let (h, k) = alu_ror-IsResult r.a r w.a_fits w in store_a_m-IsWf _ _ h k

pub step_index_inc-IsWf : (r : Cpu) → IsWf r → IsWf (step_index_inc r)
unfolding step_index_inc
step_index_inc-IsWf r w = ground arith

pub step_index_dec-IsWf : (r : Cpu) → IsWf r → IsWf (step_index_dec r)
unfolding step_index_dec
step_index_dec-IsWf r w = ground arith
