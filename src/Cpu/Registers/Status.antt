-- ===== src/Cpu/Registers/Status.antt =====
-- The bits of P after a status flag was written.
use reference_workload.Base.{
  ℕ, zero, suc, ◌/◌, ◌<◌, ◌≡◌, refl, ◌∙◌, Bool, true, false, ◌==◌, if◌then◌else◌, arith, has, bit,
  not8, bit_and,
}
use reference_workload.Base.Bits.{bit-bit_and, bit-bit_or, bit_and_power}
use reference_workload.Cpu.Flags
use reference_workload.Cpu.Registers.{with_flag}

-- A flag as a number.
abbrev pub num : Bool → ℕ
num on = if on then 1 else 0

pub bit-lt : (k x : ℕ) → bit k x < 2
bit-lt zero x = omega arith
bit-lt (suc k) x = bit-lt k (x / 2)

pub with_flag-hit :
    (k mask p : ℕ) (on : Bool)
    → bit k mask ≡ 1
    → bit k (not8 mask) ≡ 0
    → bit k (with_flag mask on p) ≡ num on
unfolding with_flag
with_flag-hit k mask p true h n = omega (arith, bit-bit_or k p mask, bit-lt k p)
with_flag-hit k mask p false h n = omega (arith, bit-bit_and k p (not8 mask))

pub with_flag-miss :
    (k mask p : ℕ) (on : Bool)
    → bit k mask ≡ 0
    → bit k (not8 mask) ≡ 1
    → bit k (with_flag mask on p) ≡ bit k p
unfolding with_flag
with_flag-miss k mask p true h n = omega (arith, bit-bit_or k p mask)
with_flag-miss k mask p false h n = omega (arith, bit-bit_and k p (not8 mask), bit-lt k p)

-- A test of one bit, and the bit.
pub has_c : (p : ℕ) → bit_and p Flags.c ≡ bit 0 p
has_c p = omega (arith, bit_and_power 0 p)

pub has_d : (p : ℕ) → has p Flags.d ≡ (bit 3 p == 1)
has_d p = ground (arith, bit_and_power 3 p)

-- C, V, N and Z after the four writes that end an arithmetic routine.
module _ (p : ℕ) (c v z n : Bool) where
  abbrev pub arithmetic_status : ℕ
  arithmetic_status =
      with_flag Flags.n n (with_flag Flags.z z (with_flag Flags.v v (with_flag Flags.c c p)))

  pub status-c : bit 0 arithmetic_status ≡ num c
  status-c =
      with_flag-miss 0 Flags.n _ n refl refl
      ∙ with_flag-miss 0 Flags.z _ z refl refl
      ∙ with_flag-miss 0 Flags.v _ v refl refl
      ∙ with_flag-hit 0 Flags.c p c refl refl

  pub status-v : bit 6 arithmetic_status ≡ num v
  status-v =
      with_flag-miss 6 Flags.n _ n refl refl
      ∙ with_flag-miss 6 Flags.z _ z refl refl
      ∙ with_flag-hit 6 Flags.v _ v refl refl

  pub status-z : bit 1 arithmetic_status ≡ num z
  status-z = with_flag-miss 1 Flags.n _ n refl refl ∙ with_flag-hit 1 Flags.z _ z refl refl

  pub status-n : bit 7 arithmetic_status ≡ num n
  status-n = with_flag-hit 7 Flags.n _ n refl refl
