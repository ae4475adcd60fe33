-- ===== src/Base/Arrays.antt =====
-- Fixed-size arrays as functions of the index, and loops over the first indexes.
use Prim.Native.Nat.{ℕ, zero, suc}
use mathlib.Core.Path.{◌≡◌}
use mathlib.Core.Logic.{◌≢◌}
use native.Mathlib.Omega.{arith}
use mathlib.Core.Bool.{Bool, true, false}
use reference_workload.Base.Tests.{◌==◌, if◌then◌else◌}

module _ {ℓ} {A : Type ℓ} where
  -- `a[i] = v`.
  unfoldable pub update : ℕ → A → (ℕ → A) → ℕ → A
  update i v a j = if j == i then v else a j

  pub update_hit : (i : ℕ) (v : A) (a : ℕ → A) → update i v a i ≡ v
  unfolding update
  update_hit i v a = ground arith

  pub update_miss : (i j : ℕ) (v : A) (a : ℕ → A) → i ≢ j → update i v a j ≡ a j
  unfolding update
  update_miss i j v a h = ground arith

  -- A predicate of every cell survives a write.
  pub update-All {κ} :
      (P : A → Type κ) (i : ℕ) (v : A) (a : ℕ → A)
      → P v
      → ((j : ℕ) → P (a j))
      → (j : ℕ) → P (update i v a j)
  unfolding update
  update-All P i v a h k j = either (j == i)
    where
      either : (t : Bool) → P (if t then v else a j)
      either true = h
      either false = k j

-- `for i in 0..n`.
unfoldable pub each_below {ℓ} : {S : Type ℓ} → ℕ → (ℕ → S → S) → S → S
each_below zero body s = s
each_below (suc n) body s = body n (each_below n body s)

pub each_below-keeps {ℓ κ} :
    {S : Type ℓ} (P : S → Type κ) (body : ℕ → S → S)
    → ((i : ℕ) (s : S) → P s → P (body i s))
    → (n : ℕ) (s : S) → P s
    → P (each_below n body s)
unfolding each_below
each_below-keeps P body keep zero s p = p
each_below-keeps P body keep (suc n) s p = keep n _ (each_below-keeps P body keep n s p)
