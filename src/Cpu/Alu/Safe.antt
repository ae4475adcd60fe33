-- ===== src/Cpu/Alu/Safe.antt =====
-- Addition, subtraction and comparison keep the register invariant.
use reference_workload.Base.{
  ℕ, ◌^◌, ◌<◌, ◌≡◌, refl, Bool, true, false, arith, if◌then◌else◌, has, with_low, with_low_lem,
}
use reference_workload.Cpu.Flags
use reference_workload.Cpu.Registers.{Cpu, m8}
use reference_workload.Cpu.Registers.WellFormed.{
  IsWf, set_flag-IsWf, set_nz8-IsWf, set_nz16-IsWf, set_a-IsWf, c-IsStatus, v-IsStatus,
}
use reference_workload.Cpu.Alu.{
  finish8, finish16, adc_bin8, adc_bin16, adc_bcd8, adc_bcd16, op_adc, sbc_bin8, sbc_bin16,
  sbc_bcd8, sbc_bcd16, op_sbc, op_compare,
}

pub if-IsWf :
    (t : Bool) {r r' : Cpu}
    → (t ≡ true → IsWf r)
    → (t ≡ false → IsWf r')
    → IsWf (if t then r else r')
if-IsWf true h k = h refl
if-IsWf false h k = k refl

pub with_low-fits : (a v : ℕ) → a < 2 ^ 16 → v < 2 ^ 8 → with_low a v < 2 ^ 16
with_low-fits a v h k = omega (arith, with_low_lem a v h k)

finish8-IsWf : (c v : Bool) (res : ℕ) (r : Cpu) → res < 2 ^ 8 → IsWf r → IsWf (finish8 c v res r)
unfolding finish8
finish8-IsWf c v res r h w =
    set_a-IsWf _
      (set_nz8-IsWf _ _ (set_flag-IsWf _ _ _ v-IsStatus (set_flag-IsWf _ _ _ c-IsStatus w))) _
      (with_low-fits r.a res w.a_fits h)

finish16-IsWf : (c v : Bool) (res : ℕ) (r : Cpu) → res < 2 ^ 16 → IsWf r → IsWf (finish16 c v res r)
unfolding finish16
finish16-IsWf c v res r h w =
    set_a-IsWf _
      (set_nz16-IsWf _ _ (set_flag-IsWf _ _ _ v-IsStatus (set_flag-IsWf _ _ _ c-IsStatus w))) _ h

pub op_adc-IsWf : (m : ℕ) (r : Cpu) → IsWf r → IsWf (op_adc m r)
unfolding op_adc adc_bin8 adc_bin16 adc_bcd8 adc_bcd16
op_adc-IsWf m r w =
    if-IsWf (has r.p Flags.d)
      (λ _.
        if-IsWf (m8 r) (λ _. finish8-IsWf _ _ _ r (omega arith) w)
          (λ _. finish16-IsWf _ _ _ r (omega arith) w))
      (λ _.
        if-IsWf (m8 r) (λ _. finish8-IsWf _ _ _ r (omega arith) w)
          (λ _. finish16-IsWf _ _ _ r (omega arith) w))

pub op_sbc-IsWf : (m : ℕ) (r : Cpu) → IsWf r → IsWf (op_sbc m r)
unfolding op_sbc sbc_bin8 sbc_bin16 sbc_bcd8 sbc_bcd16
op_sbc-IsWf m r w =
    if-IsWf (has r.p Flags.d)
      (λ _.
        if-IsWf (m8 r) (λ _. finish8-IsWf _ _ _ r (omega arith) w)
          (λ _. finish16-IsWf _ _ _ r (omega arith) w))
      (λ _.
        if-IsWf (m8 r) (λ _. finish8-IsWf _ _ _ r (omega arith) w)
          (λ _. finish16-IsWf _ _ _ r (omega arith) w))

pub op_compare-IsWf :
    (reg m : ℕ) (eight : Bool) (r : Cpu) → IsWf r → IsWf (op_compare reg m eight r)
unfolding op_compare
op_compare-IsWf reg m eight r w =
    if-IsWf eight (λ _. set_nz8-IsWf _ _ (set_flag-IsWf _ _ _ c-IsStatus w))
      (λ _. set_nz16-IsWf _ _ (set_flag-IsWf _ _ _ c-IsStatus w))
