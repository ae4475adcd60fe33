-- ===== src/Apu/Timers/Counting.antt =====
-- The stage and output counters of a timer over any number of turns.
use reference_workload.Base.{
  ℕ, zero, suc, ◌+◌, ◌*◌, ◌%◌, ◌^◌, ◌<◌, ◌≡◌, ap, ◌∙◌, if◌then◌else◌, if_true, if_false, ◌==◌, add8,
  bit_and, arith, ℕ_discrete,
}
use native.Mathlib.Nat.{suc-mul}
use reference_workload.Base.Bits.{bit_and-ones}
use reference_workload.Apu.Timers.{Timer, fires, tick}

-- A number of turns, with the overflows added up.
unfoldable pub turns : ℕ → Timer → ℕ × Timer
turns zero self = (0, self)
turns (suc k) self =
    let (overflow, self') = tick self in
    let (overflows, self'') = turns k self' in (overflow + overflows, self'')

-- The target, 256 for 0.
unfoldable pub period : Timer → ℕ
period self = if self.target == 0 then 256 else self.target

-- The registers are in range, and the stage has not passed the target.
pub record IsCounting (self : Timer) : Type 0 where
  pub target_byte : self.target < 2 ^ 8
  pub stage_below : self.stage < period self
  pub output_nibble : self.output < 2 ^ 4

fires_lem : (self : Timer) → IsCounting self → fires self ≡ (period self == self.stage + 1)
unfolding fires period
fires_lem self w = ground (arith, w.stage_below, w.target_byte)

next_output : (output : ℕ) → output < 2 ^ 4 → bit_and (add8 output 1) 0x0F ≡ (output + 1) % 2 ^ 4
next_output output h = omega (arith, bit_and-ones 4 (add8 output 1), h)

-- The turn after which the stage is `stage` and `q` overflows are counted.
unfoldable pub turned : Timer → ℕ → ℕ → Timer
turned self stage q = record self { stage = stage; output = (self.output + q) % 2 ^ 4 }

tick_fires :
    (self : Timer)
    → IsCounting self
    → self.stage + 1 ≡ period self
    → tick self ≡ (1, record self { stage = 0; output = (self.output + 1) % 2 ^ 4 })
unfolding tick
tick_fires self w e =
    if_true (fires self) _ _ (fires_lem self w ∙ ground (arith, e))
    ∙ ap (λ (o : ℕ). (1, record self { stage = 0; output = o }))
        (next_output self.output w.output_nibble)

tick_stays :
    (self : Timer)
    → IsCounting self
    → self.stage + 1 < period self
    → tick self ≡ (0, record self { stage = self.stage + 1 })
unfolding tick period
tick_stays self w h =
    if_false (fires self) _ _ (fires_lem self w ∙ ground (arith, h))
    ∙ ap (λ (s : ℕ). (0, record self { stage = s })) (ground (arith, h, w.target_byte))

same_output : (self : Timer) → IsCounting self → self ≡ turned self self.stage 0
unfolding turned
same_output self w = ap (λ (o : ℕ). record self { output = o }) (omega (arith, w.output_nibble))

-- The timers after a turn that fires and after one that does not.
unfoldable fired : Timer → Timer
fired self = record self { stage = 0; output = (self.output + 1) % 2 ^ 4 }

fired-IsCounting : (self : Timer) → IsCounting self → IsCounting (fired self)
unfolding fired period
fired-IsCounting self w = record {
  target_byte = w.target_byte;
  stage_below = omega (arith, w.stage_below);
  output_nibble = omega arith;
}

unfoldable moved : Timer → Timer
moved self = record self { stage = self.stage + 1 }

moved-IsCounting :
    (self : Timer) → IsCounting self → self.stage + 1 < period self → IsCounting (moved self)
unfolding moved period
moved-IsCounting self w h = record {
  target_byte = w.target_byte;
  stage_below = h;
  output_nibble = w.output_nibble;
}

turned-fired :
    (self : Timer) (stage q : ℕ) → turned (fired self) stage q ≡ turned self stage (suc q)
unfolding turned fired
turned-fired self stage q = ap (λ (o : ℕ). record self { stage = stage; output = o }) (omega arith)

none_more : (q : ℕ) → 0 + q ≡ q
none_more q = omega arith

one_more : (q : ℕ) → 1 + q ≡ suc q
one_more q = omega arith

-- From counters in range, after any number of turns the stage has moved on by that number around
-- the period, and the output has gone up by one, around 16, each time it passed. The hypothesis
-- splits the sum of the stage and the turns into `q` periods and a rest.
pub turns_lem :
    (k q stage : ℕ) (self : Timer)
    → IsCounting self
    → self.stage + k ≡ q * period self + stage
    → stage < period self
    → turns k self ≡ (q, turned self stage q)
unfolding turns turned fired moved period
turns_lem zero zero stage self w e below =
    ap (λ (t : Timer). (0, t)) (same_output self w)
    ∙ ap (λ (s : ℕ). (0, turned self s 0)) (omega (arith, e))
turns_lem zero (suc q) stage self w e below =
    absurd (omega (arith, e, suc-mul q (period self), w.stage_below))
turns_lem (suc k) zero stage self w e below =
    let less : self.stage + 1 < period self = omega (arith, e, below) in
    ap (λ (u : ℕ × Timer). (u.0 + (turns k u.1).0, (turns k u.1).1)) (tick_stays self w less)
    ∙ ap (λ (u : ℕ × Timer). (0 + u.0, u.1))
        (turns_lem k zero stage (moved self) (moved-IsCounting self w less) (omega (arith, e))
          below)
    ∙ (λ i. (none_more zero i, turned self stage zero))
turns_lem (suc k) (suc q) stage self w e below = elim (ℕ_discrete (self.stage + 1) (period self)) [
  | yes full ↦
      ap (λ (u : ℕ × Timer). (u.0 + (turns k u.1).0, (turns k u.1).1)) (tick_fires self w full)
      ∙ ap (λ (u : ℕ × Timer). (1 + u.0, u.1))
          (turns_lem k q stage (fired self) (fired-IsCounting self w)
            (omega (arith, e, full, suc-mul q (period self))) below)
      ∙ (λ i. (one_more q i, turned-fired self stage q i))
  | no n ↦
      let less : self.stage + 1 < period self = ground (arith, n, w.stage_below) in
      ap (λ (u : ℕ × Timer). (u.0 + (turns k u.1).0, (turns k u.1).1)) (tick_stays self w less)
      ∙ ap (λ (u : ℕ × Timer). (0 + u.0, u.1))
          (turns_lem k (suc q) stage (moved self) (moved-IsCounting self w less) (omega (arith, e))
            below)
      ∙ (λ i. (none_more (suc q) i, turned self stage (suc q)))
]
