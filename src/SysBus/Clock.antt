-- ===== src/SysBus/Clock.antt =====
-- The master clock and the H/V timer IRQ, crates/refwork-emu/src/bus.rs.
pub mod Armed
use reference_workload.Base.{
  ℕ, ◌+◌, ◌*◌, ◌%◌, ◌^◌, Bool, true, false, not, ◌&&◌, if◌then◌else◌, ltb, leb, has, Option, none,
  some,
}
use reference_workload.Timing.{mclk_per_line, mclk_per_internal_cycle}
use reference_workload.SysBus.{SysBus}

-- Whether the clock passes the target on its way.
abbrev pub crosses : ℕ → ℕ → Option ℕ → Bool
crosses old new none = false
crosses old new (some target) = ltb old target && leb target new

module _ {P A : Type 0} where
  abbrev pub h_irq : SysBus P A → Bool
  h_irq self = has self.nmitimen 0x10

  abbrev pub v_irq : SysBus P A → Bool
  v_irq self = has self.nmitimen 0x20

  abbrev pub h_offset : SysBus P A → ℕ
  h_offset self = self.htime * 4 + 14

  unfoldable pub next_h_irq_target : SysBus P A → Option ℕ
  next_h_irq_target self =
      if leb 340 self.htime
      then none
      else if leb 262 (self.line + 1)
      then none
      else some ((self.line + 1) * mclk_per_line + h_offset self)

  -- `if target > self.mclk_frame { Some(target) } else { None }`
  unfoldable pub if_ahead : ℕ → SysBus P A → Option ℕ
  if_ahead target self = if ltb self.mclk_frame target then some target else none

  unfoldable pub h_target : SysBus P A → Option ℕ
  unfolding next_h_irq_target
  h_target self =
      let candidate = self.line * mclk_per_line + h_offset self in
      if ltb self.mclk_frame candidate then some candidate else next_h_irq_target self

  -- The target that `recompute_irq_target` sets.
  unfoldable pub irq_target : SysBus P A → Option ℕ
  unfolding if_ahead h_target
  irq_target self =
      if not (h_irq self) && not (v_irq self)
      then none
      else if leb 340 self.htime && h_irq self
      then none
      else if leb 262 self.vtime && v_irq self
      then none
      else if h_irq self && not (v_irq self)
      then h_target self
      else if not (h_irq self) && v_irq self
      then if_ahead (self.vtime * mclk_per_line + 10) self
      else if_ahead (self.vtime * mclk_per_line + h_offset self) self

  unfoldable pub recompute_irq_target : SysBus P A → SysBus P A
  unfolding irq_target
  recompute_irq_target self = record self { irq_target_mclk = irq_target self }

  -- The flag rises; an H-only IRQ is armed again, any other is not.
  unfoldable pub fire_irq : SysBus P A → SysBus P A
  unfolding next_h_irq_target
  fire_irq self = record self {
    irq_flag = true;
    irq_target_mclk = if h_irq self && not (v_irq self) then next_h_irq_target self else none;
  }

  -- The clock never reaches 2 ^ 64 within a frame, so `mclk_frame` is not wrapped.
  unfoldable pub add_mclk : ℕ → SysBus P A → SysBus P A
  unfolding fire_irq
  add_mclk mclk self =
      let old = self.mclk_frame in
      let self' = record self {
        mclk_frame = old + mclk;
        mclk_total = (self.mclk_total + mclk) % 2 ^ 64;
      } in
      if crosses old (old + mclk) self.irq_target_mclk then fire_irq self' else self'

  unfoldable pub idle : SysBus P A → SysBus P A
  idle self = add_mclk mclk_per_internal_cycle self

  unfoldable pub take_nmi : SysBus P A → Bool × SysBus P A
  take_nmi self = (self.nmi_pending, record self { nmi_pending = false })

  abbrev pub irq_line : SysBus P A → Bool
  irq_line self = self.irq_flag
