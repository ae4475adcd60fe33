-- ===== src/Base/Tests.antt =====
-- Boolean tests on the native numbers, the conditional, and checks over a small range.
use Prim.Native.Nat.{ℕ, compare, Ordering}
use mathlib.Core.Path.{◌≡◌, refl}
use mathlib.Core.Logic.{◌⊎◌, inl, inr}
use mathlib.Core.Bool.{Bool, true, false, not}
use native.Mathlib.Omega.{arith}

abbrev pub ltb : ℕ → ℕ → Bool
ltb a b = elim (compare a b) [ Ordering.lt ↦ true | _ ↦ false ]

abbrev pub leb : ℕ → ℕ → Bool
leb a b = elim (compare a b) [ Ordering.gt ↦ false | _ ↦ true ]

infix 50 ◌==◌
abbrev pub ◌==◌ : ℕ → ℕ → Bool
a == b = elim (compare a b) [ Ordering.eq ↦ true | _ ↦ false ]

-- The source's `x != 0`.
abbrev pub nonzero : ℕ → Bool
nonzero a = not (a == 0)

infix 1 if◌then◌else◌
abbrev pub if◌then◌else◌ {ℓ} : {A : Type ℓ} → Bool → A → A → A
if true then x else y = x
if false then x else y = y

pub Bool-cases : (b : Bool) → (b ≡ true) ⊎ (b ≡ false)
Bool-cases true = inl refl
Bool-cases false = inr refl

-- A conditional whose test is known.
pub if_true {ℓ} : {A : Type ℓ} (t : Bool) (x y : A) → t ≡ true → (if t then x else y) ≡ x
if_true true x y h = refl
if_true false x y h = absurd (ground (arith, h))

pub if_false {ℓ} : {A : Type ℓ} (t : Bool) (x y : A) → t ≡ false → (if t then x else y) ≡ y
if_false true x y h = absurd (ground (arith, h))
if_false false x y h = refl

-- What holds of both branches holds of a conditional.
pub if-holds {ℓ κ} :
    {A : Type ℓ} (Q : A → Type κ) (t : Bool) {x y : A} → Q x → Q y → Q (if t then x else y)
if-holds Q true p q = p
if-holds Q false p q = q

-- What holds of both branches, each under its test, holds of a conditional.
pub if-split {ℓ κ} :
    {A : Type ℓ} (Q : A → Type κ) (t : Bool) {x y : A}
    → (t ≡ true → Q x)
    → (t ≡ false → Q y)
    → Q (if t then x else y)
if-split Q true p q = p refl
if-split Q false p q = q refl
