-- ===== src/Cpu/Alu/Binary.antt =====
-- Binary addition, subtraction and comparison compute what arithmetic says.
use reference_workload.Base.{
  ℕ, dec_lt, min, ◌+◌, ◌-◌, ◌*◌, ◌/◌, ◌%◌, ◌^◌, ◌<◌, ◌≡◌, refl, ◌↔◌, ◌∙◌, sym, ap, Bool, true,
  false, ◌==◌, ltb, arith, has, bit, u8, not8, bit_and, bit_xor, with_low_lem,
}
use reference_workload.Base.Bits.{bit_and_power, bit-bit_and, bit-bit_xor, bit_xor-lt}
use reference_workload.Base.Int.{
  pos, ◌+ℤ◌, signed8, +ℤ_parts, eq_of_parts, parts_of_eq, signed8_parts,
}
use reference_workload.Cpu.Flags
use reference_workload.Cpu.Registers.{Cpu, m8}
use reference_workload.Cpu.Registers.WellFormed.{IsWf}
use reference_workload.Cpu.Registers.Status.{num, bit-lt, status-c, status-v, status-z, status-n}
use reference_workload.Cpu.Alu.{carry_in, add_overflow8, sub_overflow8, finish8, adc_bin8, op_adc}

-- The flags as numbers.
abbrev pub carry : Cpu → ℕ
carry r = bit 0 r.p

abbrev pub zero_flag : Cpu → ℕ
zero_flag r = bit 1 r.p

abbrev pub overflow : Cpu → ℕ
overflow r = bit 6 r.p

abbrev pub sign : Cpu → ℕ
sign r = bit 7 r.p

pub has_sign8 : (x : ℕ) → has x 0x80 ≡ (bit 7 x == 1)
has_sign8 x = ground (arith, bit_and_power 7 x)

pub add_overflow8_lem :
    (a m res : ℕ)
    → a < 256
    → m < 256
    → add_overflow8 a m res ≡ (min (1 - (bit 7 a + bit 7 m) % 2) ((bit 7 a + bit 7 res) % 2) == 1)
unfolding add_overflow8
add_overflow8_lem a m res p q = ground (
  arith,
  has_sign8 (bit_and (not8 (bit_xor a m)) (bit_xor a res)),
  bit-bit_and 7 (not8 (bit_xor a m)) (bit_xor a res),
  bit-bit_xor 7 a m,
  bit-bit_xor 7 a res,
  bit_xor-lt 8 a m p q,
)

pub sub_overflow8_lem :
    (a m res : ℕ)
    → sub_overflow8 a m res ≡ (min ((bit 7 a + bit 7 m) % 2) ((bit 7 a + bit 7 res) % 2) == 1)
unfolding sub_overflow8
sub_overflow8_lem a m res = ground (
  arith,
  has_sign8 (bit_and (bit_xor a m) (bit_xor a res)),
  bit-bit_and 7 (bit_xor a m) (bit_xor a res),
  bit-bit_xor 7 a m,
  bit-bit_xor 7 a res,
)

-- What an 8-bit routine leaves in the registers, given its carry, overflow and result.
pub record IsResult8 (r r' : Cpu) (c v : Bool) (res : ℕ) : Type 0 where
  pub low : r'.a % 256 ≡ res
  pub high : r'.a / 256 ≡ r.a / 256
  pub carried : carry r' ≡ num c
  pub overflowed : overflow r' ≡ num v
  pub zeroed : zero_flag r' ≡ num (res == 0)
  pub signed : sign r' ≡ bit 7 res

pub finish8_lem :
    (c v : Bool) (res : ℕ) (r : Cpu)
    → r.a < 2 ^ 16
    → res < 256
    → IsResult8 r (finish8 c v res r) c v res
unfolding finish8
finish8_lem c v res r h k = record {
  low = omega (arith, with_low_lem r.a res h k);
  high = omega (arith, with_low_lem r.a res h k);
  carried = status-c r.p c v (res == 0) (has res 0x80);
  overflowed = status-v r.p c v (res == 0) (has res 0x80);
  zeroed = status-z r.p c v (res == 0) (has res 0x80);
  signed = status-n r.p c v (res == 0) (has res 0x80) ∙ ground (arith, has_sign8 res, bit-lt 7 res);
}

num-eq-zero : (t : ℕ) → t < 2 → (num (t == 1) ≡ 0) ↔ (t ≡ 0)
num-eq-zero t h = (λ e. ground arith, λ e. ground arith)

top8 : (v : ℕ) → v < 256 → bit 7 v ≡ v / 128
top8 v h = omega arith

-- The sign pattern of an overflow, against the exact sum; the top bits are given by range.
add_signs8 :
    (a m c res : ℕ)
    → a < 256
    → m < 256
    → c < 2
    → res ≡ (a + m + c) % 256
    → (min (1 - (a / 128 + m / 128) % 2) ((a / 128 + res / 128) % 2) ≡ 0)
      ↔ (res + 256 * (a / 128) + 256 * (m / 128) ≡ a + m + c + 256 * (res / 128))
add_signs8 a m c res p q h e = elim (dec_lt a 128) [
  | yes la ↦ elim (dec_lt m 128) [
    | yes lm ↦ (λ t. omega arith, λ t. omega arith)
    | no lm ↦ (λ t. omega arith, λ t. omega arith)
  ]
  | no la ↦ elim (dec_lt m 128) [
    | yes lm ↦ (λ t. omega arith, λ t. omega arith)
    | no lm ↦ (λ t. omega arith, λ t. omega arith)
  ]
]

-- V of an addition: clear exactly when the signed readings add up.
signed_sum8 :
    (a m c res : ℕ)
    → a < 256
    → m < 256
    → res < 256
    → (res + 256 * (a / 128) + 256 * (m / 128) ≡ a + m + c + 256 * (res / 128))
      ↔ (signed8 res ≡ signed8 a +ℤ signed8 m +ℤ pos c)
signed_sum8 a m c res p q h = (
  λ e. eq_of_parts _ _ (
      omega (
        arith,
        +ℤ_parts (signed8 a) (signed8 m),
        +ℤ_parts (signed8 a +ℤ signed8 m) (pos c),
        signed8_parts a p,
        signed8_parts m q,
        signed8_parts res h,
      )),
  λ e. omega (
    arith,
    parts_of_eq _ _ e,
    +ℤ_parts (signed8 a) (signed8 m),
    +ℤ_parts (signed8 a +ℤ signed8 m) (pos c),
    signed8_parts a p,
    signed8_parts m q,
    signed8_parts res h,
  ),
)

pub has_c8 : (r : Cpu) → carry_in r ≡ carry r
has_c8 r = ground (arith, bit_and_power 0 r.p)

pub carry-lt : (r : Cpu) → carry r < 2
carry-lt r = bit-lt 0 r.p

-- The four facts of a binary 8-bit sum.
pub record IsSum8 (r r' : Cpu) (m : ℕ) : Type 0 where
  pub sum : r'.a % 256 + 256 * carry r' ≡ r.a % 256 + m + carry r
  pub high : r'.a / 256 ≡ r.a / 256
  pub exact :
      (overflow r' ≡ 0) ↔ (signed8 (r'.a % 256) ≡ signed8 (r.a % 256) +ℤ signed8 m +ℤ pos (carry r))
  pub zero : (zero_flag r' ≡ 1) ↔ (r'.a % 256 ≡ 0)
  pub minus : sign r' ≡ r'.a % 256 / 128

overflow_iff8 :
    (a m c : ℕ)
    → a < 256
    → m < 256
    → c < 2
    → (num (add_overflow8 a m ((a + m + c) % 256)) ≡ 0)
      ↔ (signed8 ((a + m + c) % 256) ≡ signed8 a +ℤ signed8 m +ℤ pos c)
overflow_iff8 a m c p q h =
    let res = (a + m + c) % 256 in
    let k : res < 256 = omega arith in
    let (s, t) = signed_sum8 a m c res p q k in
    let (s', t') = add_signs8 a m c res p q h refl in
    (
      λ e.
          s (s' (ground (arith, add_overflow8_lem a m res p q, top8 a p, top8 m q, top8 res k, e))),
      λ e. ground (arith, add_overflow8_lem a m res p q, top8 a p, top8 m q, top8 res k, t' (t e)),
    )

num-zero : (t : Bool) → (num t ≡ 1) ↔ (t ≡ true)
num-zero t = (λ e. ground arith, λ e. ground arith)

-- What an 8-bit sum leaves, from the four facts of the closing statements.
sum_of_result8 :
    (r r' : Cpu) (m : ℕ)
    → m < 256
    → IsResult8 r r'
        (ltb 0xFF (r.a % 256 + m + carry r))
        (add_overflow8 (r.a % 256) m ((r.a % 256 + m + carry r) % 256))
        ((r.a % 256 + m + carry r) % 256)
    → IsSum8 r r' m
sum_of_result8 r r' m k h =
    let (s, t) = overflow_iff8 (r.a % 256) m (carry r) (omega arith) k (carry-lt r) in
    record {
      sum = ground (arith, h.low, h.carried, carry-lt r);
      high = h.high;
      exact = (
        λ e. ap signed8 h.low ∙ s (sym h.overflowed ∙ e),
        λ e. h.overflowed ∙ t (sym (ap signed8 h.low) ∙ e),
      );
      zero = (λ e. ground (arith, h.low, h.zeroed), λ e. ground (arith, h.low, h.zeroed));
      minus = omega (arith, h.low, h.signed, top8 ((r.a % 256 + m + carry r) % 256) (omega arith));
    }

adc_bin8-IsSum8 : (r : Cpu) (m : ℕ) → r.a < 2 ^ 16 → m < 256 → IsSum8 r (adc_bin8 m r) m
unfolding adc_bin8
adc_bin8-IsSum8 r m h k =
    let sum = r.a % 256 + m + carry r in
    let fits : sum % 256 < 256 = omega arith in
    let result =
      finish8_lem (ltb 0xFF sum) (add_overflow8 (r.a % 256) m (sum % 256)) (sum % 256) r h fits in
    sum_of_result8 r (adc_bin8 m r) m k (rw (has_c8 r) result)

-- In binary mode with an 8-bit accumulator, ADC leaves in C and the low byte of A the sum of A's low
-- byte, the operand's low byte and the carry. It keeps the high byte of A, clears V exactly when the
-- signed readings add up too, sets Z exactly when the result is 0, and sets N to its top bit.
pub op_adc-IsSum8 :
    (r : Cpu) (operand : ℕ)
    → IsWf r
    → has r.p Flags.d ≡ false
    → m8 r ≡ true
    → IsSum8 r (op_adc operand r) (u8 operand)
unfolding op_adc
op_adc-IsSum8 r operand w d m =
    let low : u8 operand < 256 = omega arith in
    rw (d, m) (adc_bin8-IsSum8 r (u8 operand) w.a_fits low)
