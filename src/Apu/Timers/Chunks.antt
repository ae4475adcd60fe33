-- ===== src/Apu/Timers/Chunks.antt =====
-- `advance` over any ticks: it takes whole turns, keeps the rest, and does not see how the ticks are
-- cut up.
use reference_workload.Base.{
  if-holds, ℕ, zero, suc, ◌+◌, ◌-◌, ◌*◌, ◌%◌, ◌^◌, ◌<◌, ◌≤◌, ◌≡◌, refl, sym, ap, ◌∙◌, Bool, true,
  false, not, if◌then◌else◌, if_true, if_false, leb, u32, arith, bit_and, add8, Bool-cases, inl,
  inr, ◌/◌,
}
use native.Mathlib.Nat.{suc-mul, mul_comm, mod-add-div', mod-lt, add-mul}
use reference_workload.Apu.Timers.{Timer, fires, tick, drain, advance}
use reference_workload.Apu.Timers.Counting.{turns, period, IsCounting, turned, turns_lem}

-- The timer with another accumulator.
abbrev with_accum : ℕ → Timer → Timer
with_accum a self = record self { tick_accum = a }

-- A turn does not look at the accumulator.
tick-with_accum :
    (a : ℕ) (self : Timer) → tick (with_accum a self) ≡ ((tick self).0, with_accum a (tick self).1)
unfolding tick fires
tick-with_accum a self = either (fires self)
  where
    outcome : Bool → Timer → ℕ × Timer
    outcome t u =
        if t
        then (1, record u { stage = 0; output = bit_and (add8 u.output 1) 0x0F })
        else (0, record u { stage = add8 u.stage 1 })

    either :
        (t : Bool)
        → outcome t (with_accum a self) ≡ ((outcome t self).0, with_accum a (outcome t self).1)
    either true = refl
    either false = refl

tick-divider : (self : Timer) → (tick self).1.divider ≡ self.divider
unfolding tick
tick-divider self = if-holds (λ (u : ℕ × Timer). u.1.divider ≡ self.divider) (fires self) refl refl

tick-enabled : (self : Timer) → (tick self).1.enabled ≡ self.enabled
unfolding tick
tick-enabled self = if-holds (λ (u : ℕ × Timer). u.1.enabled ≡ self.enabled) (fires self) refl refl

none_plus : (c : ℕ) → c ≡ 0 + c
none_plus c = omega arith

plus_plus : (a b c : ℕ) → a + (b + c) ≡ a + b + c
plus_plus a b c = omega arith

-- Every divider takes a tick at least.
at_most : (k d : ℕ) → 0 < d → k ≤ k * d
at_most k zero h = absurd (omega (arith, h))
at_most k (suc d) h = omega (arith, mul_comm k (suc d), suc-mul d k)

turns-with_accum :
    (k a : ℕ) (self : Timer)
    → turns k (with_accum a self) ≡ ((turns k self).0, with_accum a (turns k self).1)
unfolding turns
turns-with_accum zero a self = refl
turns-with_accum (suc k) a self =
    ap (λ (u : ℕ × Timer). (u.0 + (turns k u.1).0, (turns k u.1).1)) (tick-with_accum a self)
    ∙ ap (λ (u : ℕ × Timer). ((tick self).0 + u.0, u.1)) (turns-with_accum k a (tick self).1)

-- The loop takes `k` turns on `k` dividers and a rest below the divider, and leaves the rest.
drain-turns :
    (fuel k r : ℕ) (self : Timer)
    → self.tick_accum ≡ k * self.divider + r
    → r < self.divider
    → k ≤ fuel
    → drain fuel self ≡ ((turns k self).0, with_accum r (turns k self).1)
unfolding drain turns
drain-turns zero zero r self e below enough =
    ap (λ (a : ℕ). (0, with_accum a self)) (omega (arith, e))
drain-turns zero (suc k) r self e below enough = absurd (omega (arith, enough))
drain-turns (suc fuel) zero r self e below enough =
    if_false (leb self.divider self.tick_accum) _ _ (ground (arith, e, below))
    ∙ ap (λ (a : ℕ). (0, with_accum a self)) (omega (arith, e))
drain-turns (suc fuel) (suc k) r self e below enough =
    let a = self.tick_accum - self.divider in
    let (overflow, next) = tick self in
    if_true (leb self.divider self.tick_accum) _ _ (ground (arith, e, suc-mul k self.divider))
    ∙ ap (λ (u : ℕ × Timer). (u.0 + (drain fuel u.1).0, (drain fuel u.1).1))
        (tick-with_accum a self)
    ∙ ap (λ (u : ℕ × Timer). (overflow + u.0, u.1))
        (drain-turns fuel k r (with_accum a next)
            (omega (arith, e, suc-mul k self.divider)
              ∙ ap (λ (d : ℕ). k * d + r) (sym (tick-divider self)))
            (omega (arith, below, tick-divider self)) (omega (arith, enough))
          ∙ ap (λ (v : ℕ × Timer). (v.0, with_accum r v.1)) (turns-with_accum k a next))

turns-keeps :
    (k : ℕ) (self : Timer)
    → ((turns k self).1.divider ≡ self.divider) × ((turns k self).1.enabled ≡ self.enabled)
unfolding turns
turns-keeps zero self = (refl, refl)
turns-keeps (suc k) self =
    let (d, e) = turns-keeps k (tick self).1 in (d ∙ tick-divider self, e ∙ tick-enabled self)

turns-plus :
    (k l : ℕ) (self : Timer)
    → turns (k + l) self
      ≡ ((turns k self).0 + (turns l (turns k self).1).0, (turns l (turns k self).1).1)
unfolding turns
turns-plus zero l self =
    ap (λ (j : ℕ). turns j self) {x = 0 + l} {y = l} (omega arith)
    ∙ (λ i. (none_plus (turns l self).0 i, (turns l self).1))
turns-plus (suc k) l self =
    let (overflow, next) = tick self in
    ap (λ (j : ℕ). turns j self) {x = suc k + l} {y = suc (k + l)} (omega arith)
    ∙ ap (λ (u : ℕ × Timer). (overflow + u.0, u.1)) (turns-plus k l next)
    ∙ (λ i. (
      plus_plus overflow (turns k next).0 (turns l (turns k next).1).0 i,
      (turns l (turns k next).1).1,
    ))

-- Enough fuel, and the accumulator of the timer given to `drain` apart.
drained :
    (a k r : ℕ) (self : Timer)
    → a ≡ k * self.divider + r
    → r < self.divider
    → drain a (with_accum a self) ≡ ((turns k self).0, with_accum r (turns k self).1)
drained a k r self e below =
    drain-turns a k r (with_accum a self) e below
      (omega (arith, e, at_most k self.divider (omega (arith, below))))
    ∙ ap (λ (v : ℕ × Timer). (v.0, with_accum r v.1)) (turns-with_accum k a self)

advance-turns :
    (ticks k r : ℕ) (self : Timer)
    → self.enabled ≡ true
    → self.tick_accum + ticks < 2 ^ 32
    → self.tick_accum + ticks ≡ k * self.divider + r
    → r < self.divider
    → advance ticks self ≡ ((turns k self).0, with_accum r (turns k self).1)
unfolding advance
advance-turns ticks k r self on fits e below =
    if_false (not self.enabled) _ _ (ap not on)
    ∙ ap (λ (a : ℕ). drain a (with_accum a self)) {x = u32 (self.tick_accum + ticks)}
        {y = self.tick_accum + ticks} (omega (arith, fits))
    ∙ drained (self.tick_accum + ticks) k r self e below

-- An enabled timer with a divider and counters in range, over ticks that make `k` dividers and a
-- rest with the accumulator (no overflow of 32 bits), where the stage and `k` make `q` periods and a
-- rest (a target of 0 counting as 256): `advance` ends, reports `q` overflows, leaves both rests, and
-- adds `q` to the 4-bit output.
pub advance_lem :
    (ticks k r q stage : ℕ) (self : Timer)
    → self.enabled ≡ true
    → IsCounting self
    → self.tick_accum + ticks < 2 ^ 32
    → self.tick_accum + ticks ≡ k * self.divider + r
    → r < self.divider
    → self.stage + k ≡ q * period self + stage
    → stage < period self
    → advance ticks self ≡ (q, with_accum r (turned self stage q))
advance_lem ticks k r q stage self on w fits e below e' below' =
    advance-turns ticks k r self on fits e below
    ∙ ap (λ (v : ℕ × Timer). (v.0, with_accum r v.1)) (turns_lem k q stage self w e' below')

divided : (a d : ℕ) → 0 < d → (k : ℕ) × (r : ℕ) × (a ≡ k * d + r) × (r < d)
divided a d h = (a / d, a % d, omega (arith, mod-add-div' a d), mod-lt a h)

off_still : (ticks : ℕ) (self : Timer) → self.enabled ≡ false → advance ticks self ≡ (0, self)
unfolding advance
off_still ticks self off = if_true (not self.enabled) _ _ (ap not off)

-- Whoever calls `advance` may cut the ticks up: on a timer with a divider, enabled or not, whatever
-- its counters, and as long as the accumulator and all the ticks fit in 32 bits, two calls count the
-- overflows and leave the timer that one call with the sum of the ticks does.
pub advance-chunks :
    (n m : ℕ) (self : Timer)
    → 0 < self.divider
    → self.tick_accum + (n + m) < 2 ^ 32
    → advance (n + m) self
      ≡ ((advance n self).0 + (advance m (advance n self).1).0, (advance m (advance n self).1).1)
advance-chunks n m self d fits = elim (Bool-cases self.enabled) [
  | inl on ↦
      let (k, r, e, below) = divided (self.tick_accum + n) self.divider d in
      let (l, s, e', below') = divided (r + m) self.divider d in
      let mid = (turns k self).1 in
      let (same_divider, same_enabled) = turns-keeps k self in
      let whole =
        advance-turns (n + m) (k + l) s self on fits
          (omega (arith, e, e', add-mul k l self.divider)) below' in
      let first = advance-turns n k r self on (omega (arith, fits)) e below in
      let second =
        advance-turns m l s (with_accum r mid) (same_enabled ∙ on)
          (omega (arith, fits, e, at_most k self.divider d))
          (e' ∙ ap (λ (j : ℕ). l * j + s) (sym same_divider)) (omega (arith, below', same_divider))
        ∙ ap (λ (v : ℕ × Timer). (v.0, with_accum s v.1)) (turns-with_accum l r mid) in
      whole
      ∙ ap (λ (v : ℕ × Timer). (v.0, with_accum s v.1)) (turns-plus k l self)
      ∙ sym (
          ap (λ (u : ℕ × Timer). (u.0 + (advance m u.1).0, (advance m u.1).1)) first
          ∙ ap (λ (u : ℕ × Timer). ((turns k self).0 + u.0, u.1)) second)
  | inr off ↦
      let none_added : (0 + (advance m self).0, (advance m self).1) ≡ advance m self =
        λ i. (sym (none_plus (advance m self).0) i, (advance m self).1) in
      off_still (n + m) self off
      ∙ sym (
          ap (λ (u : ℕ × Timer). (u.0 + (advance m u.1).0, (advance m u.1).1))
            (off_still n self off)
          ∙ none_added
          ∙ off_still m self off)
]
