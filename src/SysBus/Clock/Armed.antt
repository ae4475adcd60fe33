-- ===== src/SysBus/Clock/Armed.antt =====
-- When the H/V timer IRQ is armed, and how the clock fires it.
use reference_workload.Base.{
  ℕ, ◌+◌, ◌*◌, ◌<◌, not, ◌&&◌, if-split, ltb, leb, arith, Option, none, some,
}
use reference_workload.Timing.{mclk_per_line}
use reference_workload.SysBus.{SysBus}
use reference_workload.SysBus.Clock.{
  h_irq, v_irq, h_offset, next_h_irq_target, if_ahead, h_target, irq_target, recompute_irq_target,
}

-- A target, if there is one, is after `m`.
pub data IsAfter (m : ℕ) : Option ℕ → Type 0 where
  unarmed : IsAfter m none
  armed : (t : ℕ) → m < t → IsAfter m (some t)

module _ {P A : Type 0} where
  if_ahead-IsAfter : (t : ℕ) (self : SysBus P A) → IsAfter self.mclk_frame (if_ahead t self)
  unfolding if_ahead
  if_ahead-IsAfter t self =
      if-split (IsAfter self.mclk_frame) (ltb self.mclk_frame t) (λ h. armed t (ground (arith, h)))
        λ _. unarmed

  next_h_irq_target-IsAfter :
      (self : SysBus P A)
      → self.mclk_frame < (self.line + 1) * mclk_per_line
      → IsAfter self.mclk_frame (next_h_irq_target self)
  unfolding next_h_irq_target
  next_h_irq_target-IsAfter self h =
      if-split (IsAfter self.mclk_frame) (leb 340 self.htime) (λ _. unarmed)
        λ _.
          if-split (IsAfter self.mclk_frame) (leb 262 (self.line + 1)) (λ _. unarmed)
            λ _. armed _ (omega (arith, h))

  h_target-IsAfter :
      (self : SysBus P A)
      → self.mclk_frame < (self.line + 1) * mclk_per_line
      → IsAfter self.mclk_frame (h_target self)
  unfolding h_target
  h_target-IsAfter self h =
      if-split (IsAfter self.mclk_frame)
        (ltb self.mclk_frame (self.line * mclk_per_line + h_offset self))
        (λ k. armed _ (ground (arith, k))) λ _. next_h_irq_target-IsAfter self h

  -- While the clock is within the current line, or before it, `recompute_irq_target`, which every
  -- write to the timer registers runs, arms the IRQ strictly ahead of the clock or not at all: it
  -- never arms a target that the clock can no longer cross.
  pub recompute_irq_target-IsAfter :
      (self : SysBus P A)
      → self.mclk_frame < (self.line + 1) * mclk_per_line
      → IsAfter (recompute_irq_target self).mclk_frame (recompute_irq_target self).irq_target_mclk
  unfolding recompute_irq_target irq_target
  recompute_irq_target-IsAfter self h =
      let Q = IsAfter self.mclk_frame in
      if-split Q (not (h_irq self) && not (v_irq self)) (λ _. unarmed)
        λ _.
          if-split Q (leb 340 self.htime && h_irq self) (λ _. unarmed)
            λ _.
              if-split Q (leb 262 self.vtime && v_irq self) (λ _. unarmed)
                λ _.
                  if-split Q (h_irq self && not (v_irq self)) (λ _. h_target-IsAfter self h)
                    λ _.
                      if-split Q (not (h_irq self) && v_irq self)
                        (λ _. if_ahead-IsAfter (self.vtime * mclk_per_line + 10) self)
                        λ _. if_ahead-IsAfter (self.vtime * mclk_per_line + h_offset self) self
