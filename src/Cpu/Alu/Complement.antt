-- ===== src/Cpu/Alu/Complement.antt =====
-- Binary subtraction is addition of the complement.
use reference_workload.Base.{
  ℕ, ◌+◌, ◌-◌, ◌%◌, ◌^◌, ◌<◌, ◌≤◌, ◌≡◌, ◌∙◌, ap, Bool, false, not, ◌==◌, ltb, arith, has, u8, not16,
  sub32, negative, bit, bit_and, bit_xor,
}
use reference_workload.Base.Bits.{bit_and_power, bit-bit_and, bit-bit_xor, bit_xor-lt}
use reference_workload.Cpu.Flags
use reference_workload.Cpu.Registers.{Cpu}
use reference_workload.Cpu.Registers.WellFormed.{IsWf}
use reference_workload.Cpu.Alu.{
  carry_in, add_overflow8, sub_overflow8, add_overflow16, sub_overflow16, finish8, finish16,
  adc_bin8, adc_bin16, op_adc, sbc_bin8, sbc_bin16, op_sbc,
}
use reference_workload.Cpu.Alu.Binary.{has_c8, carry-lt, add_overflow8_lem, sub_overflow8_lem}

overflow8-not8 :
    (a m res : ℕ) → a < 256 → m < 256 → sub_overflow8 a m res ≡ add_overflow8 a (255 - m) res
overflow8-not8 a m res h k =
    ground (arith, add_overflow8_lem a (255 - m) res h (omega arith), sub_overflow8_lem a m res)

-- Two calls of a closing routine agree when their three arguments do.
finish-eq :
    (finish : Bool → Bool → ℕ → Cpu → Cpu) (c c' v v' : Bool) (res res' : ℕ) (r : Cpu)
    → c ≡ c'
    → v ≡ v'
    → res ≡ res'
    → finish c v res r ≡ finish c' v' res' r
finish-eq finish c c' v v' res res' r e f g = rw (e, f, g)

-- The difference that SBC computes, against the sum with the complement.
difference_carry :
    (top a m t : ℕ)
    → a < 2 ^ 16
    → m ≤ top
    → top < 2 ^ 16
    → t < 2
    → not (negative (sub32 (sub32 a m) (1 - t))) ≡ ltb top (a + (top - m) + t)
difference_carry top a m t h k l q = ground arith

difference_value8 :
    (a m t : ℕ)
    → a < 256
    → m < 256
    → t < 2
    → sub32 (sub32 a m) (1 - t) % 2 ^ 8 ≡ (a + (255 - m) + t) % 2 ^ 8
difference_value8 a m t h k q = omega arith

difference_value16 :
    (a m t : ℕ)
    → a < 2 ^ 16
    → m < 2 ^ 16
    → t < 2
    → sub32 (sub32 a m) (1 - t) % 2 ^ 16 ≡ (a + (65535 - m) + t) % 2 ^ 16
difference_value16 a m t h k q = omega arith

sbc_bin8-not8 : (r : Cpu) (m : ℕ) → m < 256 → sbc_bin8 m r ≡ adc_bin8 (255 - m) r
unfolding sbc_bin8 adc_bin8
sbc_bin8-not8 r m k =
    let a = r.a % 256 in
    let t = carry_in r in
    let h : a < 256 = omega arith in
    let l : t < 2 = omega (arith, has_c8 r, carry-lt r) in
    let v = difference_value8 a m t h k l in
    finish-eq finish8 _ _ _ _ _ _ r
      (difference_carry 255 a m t (omega arith) (omega arith) (omega arith) l)
      (overflow8-not8 a m _ h k ∙ ap (add_overflow8 a (255 - m)) v) v

has_sign16 : (x : ℕ) → has x 0x8000 ≡ (bit 15 x == 1)
has_sign16 x = ground (arith, bit_and_power 15 x)

overflow16-not16 :
    (a m res : ℕ)
    → a < 2 ^ 16
    → m < 2 ^ 16
    → sub_overflow16 a m res ≡ add_overflow16 a (65535 - m) res
unfolding sub_overflow16 add_overflow16
overflow16-not16 a m res h k = ground (
  arith,
  has_sign16 (bit_and (bit_xor a m) (bit_xor a res)),
  has_sign16 (bit_and (not16 (bit_xor a (65535 - m))) (bit_xor a res)),
  bit-bit_and 15 (bit_xor a m) (bit_xor a res),
  bit-bit_and 15 (not16 (bit_xor a (65535 - m))) (bit_xor a res),
  bit-bit_xor 15 a m,
  bit-bit_xor 15 a (65535 - m),
  bit_xor-lt 16 a (65535 - m) h (omega arith),
)

sbc_bin16-not16 :
    (r : Cpu) (m : ℕ) → r.a < 2 ^ 16 → m < 2 ^ 16 → sbc_bin16 m r ≡ adc_bin16 (65535 - m) r
unfolding sbc_bin16 adc_bin16
sbc_bin16-not16 r m h k =
    let t = carry_in r in
    let l : t < 2 = omega (arith, has_c8 r, carry-lt r) in
    let v = difference_value16 r.a m t h k l in
    finish-eq finish16 _ _ _ _ _ _ r
      (difference_carry 65535 r.a m t h (omega arith) (omega arith) l)
      (overflow16-not16 r.a m _ h k ∙ ap (add_overflow16 r.a (65535 - m)) v) v

low-not16 : (operand : ℕ) → operand < 2 ^ 16 → 255 - u8 operand ≡ u8 (not16 operand)
low-not16 operand h = omega arith

-- In binary mode, at either accumulator width, SBC is ADC of the complemented operand: the same
-- registers and the same flags.
pub op_sbc-op_adc :
    (r : Cpu) (operand : ℕ)
    → IsWf r
    → operand < 2 ^ 16
    → has r.p Flags.d ≡ false
    → op_sbc operand r ≡ op_adc (not16 operand) r
unfolding op_sbc op_adc
op_sbc-op_adc r operand w h d =
    let low : u8 operand < 256 = omega arith in
    let narrow = sbc_bin8-not8 r (u8 operand) low in
    rw (d, narrow, low-not16 operand h, sbc_bin16-not16 r operand w.a_fits h)
