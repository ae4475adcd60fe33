-- ===== src/Cpu/Alu/Compare.antt =====
-- The comparisons CMP, CPX and CPY as orders.
use reference_workload.Base.{
  ℕ, ◌+◌, ◌-◌, ◌*◌, ◌%◌, ◌^◌, ◌≤◌, ◌<◌, ◌≡◌, refl, ◌↔◌, ◌∙◌, Bool, true, false, ◌==◌, leb, arith,
  has, u8, sub8, sub16, bit,
}
use reference_workload.Base.Bits.{bit_and_power}
use reference_workload.Cpu.Flags
use reference_workload.Cpu.Registers.{Cpu, with_flag}
use reference_workload.Cpu.Registers.Status.{num, with_flag-hit, with_flag-miss}
use reference_workload.Cpu.Alu.{op_compare}
use reference_workload.Cpu.Alu.Binary.{carry, zero_flag, overflow, sign}

-- C, Z, N and V after the three writes of a comparison.
module _ (p : ℕ) (c z n : Bool) where
  abbrev compare_status : ℕ
  compare_status = with_flag Flags.n n (with_flag Flags.z z (with_flag Flags.c c p))

  compare-c : bit 0 compare_status ≡ num c
  compare-c =
      with_flag-miss 0 Flags.n _ n refl refl
      ∙ with_flag-miss 0 Flags.z _ z refl refl
      ∙ with_flag-hit 0 Flags.c p c refl refl

  compare-z : bit 1 compare_status ≡ num z
  compare-z = with_flag-miss 1 Flags.n _ n refl refl ∙ with_flag-hit 1 Flags.z _ z refl refl

  compare-n : bit 7 compare_status ≡ num n
  compare-n = with_flag-hit 7 Flags.n _ n refl refl

  compare-v : bit 6 compare_status ≡ bit 6 p
  compare-v =
      with_flag-miss 6 Flags.n _ n refl refl
      ∙ with_flag-miss 6 Flags.z _ z refl refl
      ∙ with_flag-miss 6 Flags.c p c refl refl

-- What a comparison of two numbers leaves in the flags; `half` is half the range of the width.
pub record IsCompared (r r' : Cpu) (half x m : ℕ) : Type 0 where
  pub above : (carry r' ≡ 1) ↔ (m ≤ x)
  pub equal : (zero_flag r' ≡ 1) ↔ (x ≡ m)
  pub minus : (sign r' ≡ 1) ↔ (half ≤ (x + 2 * half - m) % (2 * half))
  pub same_v : overflow r' ≡ overflow r
  pub same_a : r'.a ≡ r.a

num-one : (t : Bool) → (num t ≡ 1) ↔ (t ≡ true)
num-one t = (λ e. ground arith, λ e. ground arith)

num-leb : (a b n : ℕ) → n ≡ num (leb a b) → (n ≡ 1) ↔ (a ≤ b)
num-leb a b n e = (λ h. ground arith, λ h. ground arith)

num-difference : (x m d n : ℕ) → n ≡ num (d == 0) → (d ≡ 0) ↔ (x ≡ m) → (n ≡ 1) ↔ (x ≡ m)
num-difference x m d n e (s, t) = (λ h. s (ground arith), λ h. ground (arith, t h))

sub8-zero : (x m : ℕ) → x < 256 → m < 256 → (sub8 x m ≡ 0) ↔ (x ≡ m)
sub8-zero x m h k = (λ e. omega arith, λ e. omega arith)

sub16-zero : (x m : ℕ) → x < 2 ^ 16 → m < 2 ^ 16 → (sub16 x m ≡ 0) ↔ (x ≡ m)
sub16-zero x m h k = (λ e. omega arith, λ e. omega arith)

-- N is the top bit of the difference.
num-sign8 : (v n : ℕ) → v < 256 → n ≡ num (has v 0x80) → (n ≡ 1) ↔ (128 ≤ v)
num-sign8 v n h e = (λ k. ground (arith, bit_and_power 7 v), λ k. ground (arith, bit_and_power 7 v))

num-sign16 : (v n : ℕ) → v < 2 ^ 16 → n ≡ num (has v 0x8000) → (n ≡ 1) ↔ (2 ^ 15 ≤ v)
num-sign16 v n h e =
    (λ k. ground (arith, bit_and_power 15 v), λ k. ground (arith, bit_and_power 15 v))

compare-8 : (r : Cpu) (x m : ℕ) → IsCompared r (op_compare x m true r) 128 (u8 x) (u8 m)
unfolding op_compare
compare-8 r x m =
    let small : u8 x < 256 = omega arith in
    let small' : u8 m < 256 = omega arith in
    let d = sub8 (u8 x) (u8 m) in
    let c = leb (u8 m) (u8 x) in
    record {
      above = num-leb (u8 m) (u8 x) _ (compare-c r.p c (d == 0) (has d 0x80));
      equal =
          num-difference _ _ d _ (compare-z r.p c (d == 0) (has d 0x80))
            (sub8-zero (u8 x) (u8 m) small small');
      minus = num-sign8 d _ (omega arith) (compare-n r.p c (d == 0) (has d 0x80));
      same_v = compare-v r.p c (d == 0) (has d 0x80);
      same_a = refl;
    }

compare-16 :
    (r : Cpu) (x m : ℕ)
    → x < 2 ^ 16
    → m < 2 ^ 16
    → IsCompared r (op_compare x m false r) (2 ^ 15) x m
unfolding op_compare
compare-16 r x m h k =
    let d = sub16 x m in
    let c = leb m x in
    record {
      above = num-leb m x _ (compare-c r.p c (d == 0) (has d 0x8000));
      equal = num-difference _ _ d _ (compare-z r.p c (d == 0) (has d 0x8000)) (sub16-zero x m h k);
      minus = num-sign16 d _ (omega arith) (compare-n r.p c (d == 0) (has d 0x8000));
      same_v = compare-v r.p c (d == 0) (has d 0x8000);
      same_a = refl;
    }

-- Comparing a register with an operand, at either width, sets C exactly when the operand is at most
-- the register, Z exactly when they are equal and N exactly when the wrapped difference is in the
-- upper half of the range, and leaves V and A; at 8 bits the low bytes are compared.
pub op_compare-IsCompared :
    (r : Cpu) (reg m : ℕ)
    → reg < 2 ^ 16
    → m < 2 ^ 16
    → IsCompared r (op_compare reg m true r) (2 ^ 7) (u8 reg) (u8 m)
      × IsCompared r (op_compare reg m false r) (2 ^ 15) reg m
op_compare-IsCompared r reg m h k = (compare-8 r reg m, compare-16 r reg m h k)
