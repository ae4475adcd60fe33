-- ===== src/Cpu/Stack/RoundTrip.antt =====
-- What is pushed is pulled again, on a bus with memory under the stack.
use reference_workload.Base.{
  ℕ, ◌+◌, ◌%◌, ◌^◌, ◌<◌, ◌≡◌, refl, sym, ap, ◌≢◌, List, [], ◌∷◌, Bool, true, false, if◌then◌else◌,
  arith, u8, ◌>>>◌, sub16, add16, join, join_lem, page_one, page_one_lem,
}
use reference_workload.Cpu.Registers.{Cpu}
use reference_workload.Cpu.Machine.{Bus, ◌>>=◌}
use reference_workload.Cpu.Machine.Ram.{
  IsRam, Runs, Runs-bind, Runs-pure, Runs-gets, Runs-cast, Runs-modify, Holds, Apart, Runs-read,
  Runs-write,
}
use reference_workload.Cpu.Stack.{pushed, pulled, push8, pull8, push16, pull16}

-- A stack pointer is a word, in page 1 in emulation mode.
pub record IsPointer (e : Bool) (s : ℕ) : Type 0 where
  pub word : s < 2 ^ 16
  pub paged : e ≡ true → s ≡ 256 + s % 256

-- The pointer one push down.
unfoldable pub below : Bool → ℕ → ℕ
below e s = if e then page_one (sub16 s 1) else sub16 s 1

pub below-IsPointer : (e : Bool) (s : ℕ) → IsPointer e (below e s)
unfolding below
below-IsPointer true s = omega (arith, page_one_lem (sub16 s 1))
below-IsPointer false s = ground (arith)

pub pushed_lem : (r : Cpu) → pushed r ≡ below r.e r.s
unfolding pushed below
pushed_lem r = refl

pulled-below : (r : Cpu) (s : ℕ) → IsPointer r.e s → r.s ≡ below r.e s → pulled r ≡ s
unfolding below pulled
pulled-below r s p h =
    ground (arith, page_one_lem (sub16 s 1), page_one_lem (add16 r.s 1), p.paged, p.word)

module _ {S : Type 0} ⦃bus : Bus S⦄ {mem : ℕ → S → ℕ} {within : ℕ → Type 0}
    (ram : IsRam bus mem within) where
  pub Runs-push8 :
      (v : ℕ) (cells : List (ℕ × ℕ)) (r : Cpu)
      → within r.s
      → v < 2 ^ 8
      → Apart ram r.s cells
      → Runs
          (Holds ram cells)
          (push8 v)
          r
          tt
          (record r { s = below r.e r.s })
          (Holds ram ((r.s, v) ∷ cells))
  unfolding push8
  Runs-push8 v cells r w k n = Runs-bind _ (Runs-gets (λ r. r.s) r) (
      Runs-bind _ (Runs-write ram r.s v cells r w k n)
        (Runs-cast refl (ap (λ (t : ℕ). record r { s = t }) (pushed_lem r)) (Runs-modify _ r)))

  pub Runs-pull8 :
      (s v : ℕ) (cells : List (ℕ × ℕ)) (r : Cpu)
      → IsPointer r.e s
      → r.s ≡ below r.e s
      → Runs (Holds ram ((s, v) ∷ cells)) pull8 r v (record r { s = s }) (Holds ram cells)
  unfolding pull8
  Runs-pull8 s v cells r p h =
      Runs-bind _
        (Runs-cast refl (ap (λ (t : ℕ). record r { s = t }) (pulled-below r s p h))
          (Runs-modify _ r))
        (Runs-bind _ (Runs-gets (λ r. r.s) (record r { s = s }))
          (Runs-read ram s v cells (record r { s = s })))

below_native : (s : ℕ) → below false s ≡ (s + 65535) % 65536
unfolding below
below_native s = omega arith

below_emulated : (s : ℕ) → IsPointer true s → below true s ≡ 256 + (s + 255) % 256
unfolding below
below_emulated s p = omega (arith, page_one_lem (sub16 s 1), p.paged refl)

pub below-apart1 : (e : Bool) (s : ℕ) → IsPointer e s → below e s ≢ s
below-apart1 true s p h = omega (arith, below_emulated s p, p.paged refl)
below-apart1 false s p h = omega (arith, below_native s, p.word)

pub below-apart2 : (e : Bool) (s : ℕ) → IsPointer e s → below e (below e s) ≢ s
below-apart2 true s p h = omega (
  arith,
  below_emulated s p,
  below_emulated (below true s) (below-IsPointer true s),
  p.paged refl,
)
below-apart2 false s p h = omega (arith, below_native s, below_native (below false s), p.word)

pub below-apart3 : (e : Bool) (s : ℕ) → IsPointer e s → below e (below e (below e s)) ≢ s
below-apart3 true s p h = omega (
  arith,
  below_emulated s p,
  below_emulated (below true s) (below-IsPointer true s),
  below_emulated (below true (below true s)) (below-IsPointer true (below true s)),
  p.paged refl,
)
below-apart3 false s p h = omega (
  arith,
  below_native s,
  below_native (below false s),
  below_native (below false (below false s)),
  p.word,
)

-- The two bytes of a word, joined.
pub join-halves : (v : ℕ) → v < 2 ^ 16 → join (u8 v) (u8 (v >>> 8)) ≡ v
join-halves v h =
    let lo : u8 v < 256 = omega arith in
    let hi : u8 (v >>> 8) < 256 = omega arith in omega (arith, join_lem (u8 v) (u8 (v >>> 8)) lo hi)

module _ {S : Type 0} ⦃bus : Bus S⦄ {mem : ℕ → S → ℕ} {within : ℕ → Type 0}
    (ram : IsRam bus mem within) where
  pub Runs-push16 :
      (v : ℕ) (cells : List (ℕ × ℕ)) (r : Cpu)
      → IsPointer r.e r.s
      → within r.s
      → within (below r.e r.s)
      → Apart ram r.s cells
      → Apart ram (below r.e r.s) cells
      → Runs
          (Holds ram cells)
          (push16 v)
          r
          tt
          (record r { s = below r.e (below r.e r.s) })
          (Holds ram ((below r.e r.s, u8 v) ∷ (r.s, u8 (v >>> 8)) ∷ cells))
  unfolding push16
  Runs-push16 v cells r p w w' n n' =
      Runs-bind _ (Runs-push8 ram (u8 (v >>> 8)) cells r w (omega arith) n) (
        Runs-push8 ram (u8 v) ((r.s, u8 (v >>> 8)) ∷ cells) (record r { s = below r.e r.s }) w'
          (omega arith) (below-apart1 r.e r.s p, n'))

  pub Runs-pull16 :
      (s v : ℕ) (cells : List (ℕ × ℕ)) (r : Cpu)
      → IsPointer r.e s
      → v < 2 ^ 16
      → r.s ≡ below r.e (below r.e s)
      → Runs
          (Holds ram ((below r.e s, u8 v) ∷ (s, u8 (v >>> 8)) ∷ cells))
          pull16
          r
          v
          (record r { s = s })
          (Holds ram cells)
  unfolding pull16
  Runs-pull16 s v cells r p k h =
      Runs-bind _
        (Runs-pull8 ram (below r.e s) (u8 v) ((s, u8 (v >>> 8)) ∷ cells) r (below-IsPointer r.e s)
          h)
        (Runs-bind _ (Runs-pull8 ram s (u8 (v >>> 8)) cells (record r { s = below r.e s }) p refl) (
          Runs-cast (join-halves v k) refl
            (Runs-pure (join (u8 v) (u8 (v >>> 8))) (record r { s = s }))))

  Runs-push-pull :
      (v : ℕ) (r : Cpu)
      → IsPointer r.e r.s
      → v < 2 ^ 16
      → within r.s
      → within (below r.e r.s)
      → Runs (Holds ram []) (push16 v >>= λ _. pull16) r v r (Holds ram [])
  Runs-push-pull v r p k w w' =
      Runs-bind _ (Runs-push16 v [] r p w w' tt tt)
        (Runs-pull16 r.s v [] (record r { s = below r.e (below r.e r.s) }) p k refl)

  -- A 16-bit push and then a 16-bit pull give the word back and leave every register as it was, the
  -- stack pointer included, in native mode and in emulation mode, where the pointer wraps in page 1:
  -- the two stack bytes need only lie in the memory.
  pub pull16-push16 :
      (v : ℕ) (r : Cpu) (b : S)
      → IsPointer r.e r.s
      → v < 2 ^ 16
      → within r.s
      → within (pushed r)
      → (((push16 v >>= λ _. pull16) r b).0 ≡ v) × (((push16 v >>= λ _. pull16) r b).1 ≡ r)
  pull16-push16 v r b p k w w' =
      let (b', e, h) = (Runs-push-pull v r p k w (rw (sym (pushed_lem r)) w')).at b tt in
      (ap (λ u. u.0) e, ap (λ u. u.1) e)
