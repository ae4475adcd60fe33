-- ===== src/Cpu/Alu/Decimal.antt =====
-- Decimal addition of two-digit numbers.
use reference_workload.Base.{
  ℕ, ◌+◌, ◌*◌, ◌/◌, ◌%◌, ◌^◌, ◌<◌, ◌≤◌, ◌≡◌, refl, ap, ◌∙◌, true, ltb, arith, has, u8, bit_and,
  bit_or, ◌<<<◌,
}
use reference_workload.Base.Bits.{bit_and-ones, bit_or_fields_flip}
use reference_workload.Cpu.Flags
use reference_workload.Cpu.Registers.{Cpu, m8}
use reference_workload.Cpu.Registers.WellFormed.{IsWf}
use reference_workload.Cpu.Registers.Status.{num}
use reference_workload.Cpu.Alu.{carry_in, add_overflow8, adjust, carry_up, adc_bcd8, op_adc}
use reference_workload.Cpu.Alu.Binary.{carry, has_c8, carry-lt, finish8_lem}

-- A byte of two decimal digits, and the number it stands for.
pub record IsBcd (x : ℕ) : Type 0 where
  pub tens : x / 16 ≤ 9
  pub units : x % 16 ≤ 9

unfoldable pub decimal : ℕ → ℕ
decimal x = x / 16 * 10 + x % 16

-- One digit: its adjusted sum has the decimal digit in its low nibble, and passes 15 on a carry.
digit_lem : (s : ℕ) → s < 20 → adjust s % 16 ≡ s % 10
unfolding adjust
digit_lem s h = ground arith

carry_lem : (s next : ℕ) → s < 20 → carry_up (adjust s) next ≡ next + s / 10
unfolding adjust carry_up
carry_lem s next h = ground arith

passes_lem : (s : ℕ) → s < 20 → ltb 0x0F (adjust s) ≡ ltb 9 s
unfolding adjust
passes_lem s h = ground arith

adjust-lt : (s : ℕ) → s < 20 → adjust s < 26
unfolding adjust
adjust-lt s h = ground arith

pack_lem :
    (hi lo : ℕ)
    → hi < 26
    → u8 (bit_and (bit_or (hi <<< 4) (bit_and lo 0x0F)) 0xFF) ≡ hi % 16 * 16 + lo % 16
pack_lem hi lo h = omega (
  arith,
  bit_and-ones 4 lo,
  bit_and-ones 8 (bit_or (hi <<< 4) (bit_and lo 0x0F)),
  bit_or_fields_flip 4 hi (bit_and lo 0x0F) (omega (arith, bit_and-ones 4 lo)),
)

-- The four facts of a decimal sum.
pub record IsDecimalSum8 (r r' : Cpu) (m : ℕ) : Type 0 where
  pub sum : decimal (r'.a % 256) + 100 * carry r' ≡ decimal (r.a % 256) + decimal m + carry r
  pub digits : IsBcd (r'.a % 256)
  pub high : r'.a / 256 ≡ r.a / 256

digits_sum :
    (a m c res k lo hi : ℕ)
    → IsBcd a
    → IsBcd m
    → c < 2
    → lo ≡ a % 16 + m % 16 + c
    → hi ≡ a / 16 + m / 16 + lo / 10
    → res ≡ hi % 10 * 16 + lo % 10
    → k ≡ num (ltb 9 hi)
    → (decimal res + 100 * k ≡ decimal a + decimal m + c) × IsBcd res
unfolding decimal
digits_sum a m c res k lo hi p q h e f g t =
    (ground (arith, p.tens, p.units, q.tens, q.units), omega arith)

adc_bcd8-IsDecimalSum8 :
    (r : Cpu) (m : ℕ)
    → r.a < 2 ^ 16
    → IsBcd (r.a % 256)
    → IsBcd m
    → IsDecimalSum8 r (adc_bcd8 m r) m
unfolding adc_bcd8
adc_bcd8-IsDecimalSum8 r m h p q =
    let a = r.a % 256 in
    let s = a % 16 + m % 16 + carry r in
    let t = a / 16 + m / 16 + s / 10 in
    let c : carry r < 2 = carry-lt r in
    let s_fits : s < 20 = omega (arith, p.units, q.units) in
    let t_fits : t < 20 = omega (arith, p.tens, q.tens) in
    let lo = adjust (bit_and a 0x0F + bit_and m 0x0F + carry_in r) in
    let lo_is : lo ≡ adjust s =
      λ i. adjust (bit_and-ones 4 a i + bit_and-ones 4 m i + has_c8 r i) in
    let hi = adjust (carry_up lo (a / 16 + m / 16)) in
    let hi_is : hi ≡ adjust t =
      ap adjust (
        ap (λ (x : ℕ). carry_up x (a / 16 + m / 16)) lo_is
        ∙ carry_lem s (a / 16 + m / 16) s_fits) in
    let res = u8 (bit_and (bit_or (hi <<< 4) (bit_and lo 0x0F)) 0xFF) in
    let hi_fits : hi < 26 = omega (arith, hi_is, adjust-lt t t_fits) in
    let packed : res ≡ hi % 16 * 16 + lo % 16 = pack_lem hi lo hi_fits in
    let res_is : res ≡ t % 10 * 16 + s % 10 =
      omega (arith, packed, hi_is, lo_is, digit_lem s s_fits, digit_lem t t_fits) in
    let overflow = add_overflow8 a m (u8 (carry_up lo (a / 16 + m / 16) <<< 4)) in
    let left = finish8_lem (ltb 0x0F hi) overflow res r h (omega (arith, res_is)) in
    let carried = left.carried ∙ ap num (ap (ltb 0x0F) hi_is ∙ passes_lem t t_fits) in
    let (sum, digits) =
      digits_sum a m (carry r) _ _ s t p q c refl refl (left.low ∙ res_is) carried in
    record { sum = sum; digits = digits; high = left.high }

-- In decimal mode with an 8-bit accumulator, ADC of two bytes of two decimal digits each leaves two
-- decimal digits in the low byte of A, which with C as the hundreds stand for the sum of the two
-- numbers and the carry, and keeps the high byte of A.
pub op_adc-IsDecimalSum8 :
    (r : Cpu) (operand : ℕ)
    → IsWf r
    → has r.p Flags.d ≡ true
    → m8 r ≡ true
    → IsBcd (r.a % 256)
    → IsBcd (u8 operand)
    → IsDecimalSum8 r (op_adc operand r) (u8 operand)
unfolding op_adc
op_adc-IsDecimalSum8 r operand w d m p q =
    rw (d, m) (adc_bcd8-IsDecimalSum8 r (u8 operand) w.a_fits p q)
