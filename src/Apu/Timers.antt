-- ===== src/Apu/Timers.antt =====
-- The SPC700 timers, crates/refwork-emu/src/apu/timers.rs.
pub mod Counting
pub mod Chunks
pub mod Examples
use reference_workload.Base.{
  ℕ, zero, suc, ◌+◌, ◌-◌, Bool, true, false, not, ◌&&◌, if◌then◌else◌, leb, ◌==◌, u32, add8,
  bit_and,
}

abbrev pub divider_01 : ℕ
divider_01 = 128

abbrev pub divider_2 : ℕ
divider_2 = 16

pub record Timer : Type 0 where
  pub tick_accum : ℕ  -- u32
  pub divider : ℕ  -- u32
  pub target : ℕ  -- u8
  pub stage : ℕ  -- u8
  pub output : ℕ  -- u8
  pub enabled : Bool

unfoldable pub new : ℕ → Timer
new divider = record {
  tick_accum = 0;
  divider = divider;
  target = 0;
  stage = 0;
  output = 0;
  enabled = false;
}

unfoldable pub set_enabled : Bool → Timer → Timer
set_enabled enable self =
    let self' =
      if enable && not self.enabled
      then record self { stage = 0; output = 0; tick_accum = 0 }
      else self in
    record self' { enabled = enable }

-- Whether the stage that follows fires.
unfoldable pub fires : Timer → Bool
fires self =
    if self.target == 0
    then (self.stage == 0xFF) && (add8 self.stage 1 == 0)
    else leb self.target (add8 self.stage 1)

-- One turn of the loop, without the accumulator: the overflows and the timer.
unfoldable pub tick : Timer → ℕ × Timer
unfolding fires
tick self =
    if fires self
    then (1, record self { stage = 0; output = bit_and (add8 self.output 1) 0x0F })
    else (0, record self { stage = add8 self.stage 1 })

-- `while self.tick_accum >= self.divider`.
unfoldable pub drain : (fuel : ℕ) → Timer → ℕ × Timer
unfolding tick
drain zero self = (0, self)
drain (suc fuel) self =
    let (overflow, self') = tick (record self { tick_accum = self.tick_accum - self.divider }) in
    let (overflows, self'') = drain fuel self' in
    if leb self.divider self.tick_accum then (overflow + overflows, self'') else (0, self)

-- A divider of 1 or more takes no more turns than there are ticks.
unfoldable pub advance : ℕ → Timer → ℕ × Timer
unfolding drain
advance ticks self =
    let accum = u32 (self.tick_accum + ticks) in
    if not self.enabled then (0, self) else drain accum (record self { tick_accum = accum })

unfoldable pub peek_output : Timer → ℕ
peek_output self = bit_and self.output 0x0F

unfoldable pub clear_output : Timer → Timer
clear_output self = record self { output = 0 }

unfoldable pub read_output : Timer → ℕ × Timer
read_output self = (bit_and self.output 0x0F, record self { output = 0 })

unfoldable pub write_target : ℕ → Timer → Timer
write_target value self = record self { target = value }
