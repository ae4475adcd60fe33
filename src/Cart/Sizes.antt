-- ===== src/Cart/Sizes.antt =====
-- The length checks of `from_rom`, against powers of two.
use reference_workload.Base.{
  ℕ, zero, suc, ◌+◌, ◌-◌, ◌*◌, ◌/◌, ◌%◌, ◌^◌, ◌<◌, ◌≤◌, ◌≡◌, refl, ap, true, false, Bool-cases, inl,
  inr, arith, bit_and, ◌==◌, ltb,
}
use reference_workload.Base.Bits.{bit_and-ones, below-two-pow}
use reference_workload.Base.Digits.{bit_and_digit}
use native.Mathlib.Nat.{pow-suc, one-le-pow, pow-le-pow_right, mod_self}
use reference_workload.Cart.{is_power_of_two, bad_rom, bad_sram}

abbrev pub IsPower : ℕ → Type 0
IsPower n = (k : ℕ) × (n ≡ 2 ^ k)

self_and : (w a : ℕ) → a < 2 ^ w → bit_and a a ≡ a
self_and zero zero h = refl
self_and zero (suc a) h = absurd (omega arith)
self_and (suc w) a h =
    omega (arith, pow-suc 2 w, bit_and_digit a a, self_and w (a / 2) (omega (arith, pow-suc 2 w)))

even_pred : (n : ℕ) → 0 < n → n % 2 ≡ 0 → bit_and n (n - 1) ≡ bit_and (n / 2) (n / 2 - 1) * 2
even_pred n h e = omega (
  arith,
  bit_and_digit n (n - 1),
  ap (bit_and (n / 2)) {x = (n - 1) / 2} {y = n / 2 - 1} (omega arith),
)

odd_pred : (n : ℕ) → n % 2 ≡ 1 → bit_and n (n - 1) ≡ bit_and (n / 2) (n / 2) * 2
odd_pred n e = omega (
  arith,
  bit_and_digit n (n - 1),
  ap (bit_and (n / 2)) {x = (n - 1) / 2} {y = n / 2} (omega arith),
)

-- A nonzero number that shares no bit with its predecessor is a power of two.
one_bit : (w n : ℕ) → n < 2 ^ w → 0 < n → bit_and n (n - 1) ≡ 0 → IsPower n
one_bit zero n h p e = absurd (omega arith)
one_bit (suc w) n h p e = elim (Bool-cases (n % 2 == 0)) [
  | inl t ↦
      let half =
        one_bit w (n / 2) (omega (arith, pow-suc 2 w)) (ground (arith, t))
          (ground (arith, t, even_pred n p)) in
      (suc (half.0), ground (arith, t, half.1, pow-suc 2 (half.0)))
  | inr t ↦ (0, ground (arith, t, odd_pred n, self_and w (n / 2) (omega (arith, pow-suc 2 w))))
]

power_mask : (k : ℕ) → bit_and (2 ^ k) (2 ^ k - 1) ≡ 0
power_mask k = omega (arith, bit_and-ones k (2 ^ k), mod_self (2 ^ k))

is_power_of_two-IsPower : (n : ℕ) → is_power_of_two n ≡ true → IsPower n
unfolding is_power_of_two
is_power_of_two-IsPower n h = one_bit n n (below-two-pow n) (ground (arith, h)) (ground (arith, h))

IsPower-is_power_of_two : (n : ℕ) → IsPower n → is_power_of_two n ≡ true
unfolding is_power_of_two
IsPower-is_power_of_two n (k, e) =
    ground (arith, e, one-le-pow k 2, ap (λ (t : ℕ). bit_and t (t - 1)) e, power_mask k)

page_multiple : (i k : ℕ) → k ≡ i + 15 → 2 ^ k % 0x8000 ≡ 0
page_multiple zero k e = ap (λ (t : ℕ). 2 ^ t % 0x8000) e
page_multiple (suc i) zero e = absurd (omega arith)
page_multiple (suc i) (suc k) e = omega (arith, pow-suc 2 k, page_multiple i k (omega arith))

-- A power of two of at least 32 KiB is a multiple of 32 KiB.
page_mask : (k : ℕ) → 0x8000 ≤ 2 ^ k → 2 ^ k % 0x8000 ≡ 0
page_mask k h = elim (Bool-cases (ltb k 15)) [
  | inl t ↦
      absurd
        (omega (arith, pow-le-pow_right {n = 2} (omega arith) {i = k} {j = 14} (ground (arith, t))))
  | inr t ↦ page_multiple (k - 15) k (ground (arith, t))
]

-- The ROM lengths that pass are the powers of two from 32 KiB.
pub good_rom : (n : ℕ) → bad_rom n ≡ false → IsPower n × (0x8000 ≤ n)
unfolding bad_rom
good_rom n h = elim (Bool-cases (is_power_of_two n)) [
  | inl t ↦ (is_power_of_two-IsPower n t, ground (arith, h, bit_and-ones 15 n))
  | inr t ↦ absurd (ground (arith, h, t))
]

pub refused_rom : (n : ℕ) → bad_rom n ≡ true → ¬ (IsPower n × (0x8000 ≤ n))
unfolding bad_rom
refused_rom n h ((k, e), l) = ground (
  arith,
  h,
  l,
  IsPower-is_power_of_two n (k, e),
  bit_and-ones 15 n,
  e,
  ap (λ (t : ℕ). t % 0x8000) e,
  page_mask k (omega (arith)),
)

pub good_sram : (n : ℕ) → bad_sram n ≡ false → IsPower n × (2048 ≤ n) × (n ≤ 0x8_0000)
unfolding bad_sram
good_sram n h = elim (Bool-cases (is_power_of_two n)) [
  | inl t ↦ (is_power_of_two-IsPower n t, ground (arith, h, t), ground (arith, h, t))
  | inr t ↦ absurd (ground (arith, h, t))
]

pub refused_sram : (n : ℕ) → bad_sram n ≡ true → ¬ (IsPower n × (2048 ≤ n) × (n ≤ 0x8_0000))
unfolding bad_sram
refused_sram n h (p, l, u) = ground (arith, h, l, u, IsPower-is_power_of_two n p)
