-- ===== src/Apu/Timers/Examples.antt =====
-- Timer 2 with a target of 3, half way through a tick.
use reference_workload.Base.{◌+◌, ◌≡◌, refl, true, arith}
use reference_workload.Apu.Timers.{Timer, divider_2, advance}
use reference_workload.Apu.Timers.Counting.{period, IsCounting, turned}
use reference_workload.Apu.Timers.Chunks.{advance_lem, advance-chunks}

abbrev running : Timer
running = record {
  tick_accum = 8;
  divider = divider_2;
  target = 3;
  stage = 2;
  output = 15;
  enabled = true;
}

running-IsCounting : IsCounting running
unfolding period
running-IsCounting = record {
  target_byte = omega arith;
  stage_below = omega arith;
  output_nibble = omega arith;
}

-- 100 ticks make six turns and 12 left; the stage passes 3 twice and stops at 2.
advance_lem_example : advance 100 running ≡ (2, record (turned running 2 2) { tick_accum = 12 })
unfolding period
advance_lem_example =
    advance_lem 100 6 12 2 2 running refl running-IsCounting (omega arith) (omega arith)
      (omega arith) (omega arith) (omega arith)

advance-chunks_example : advance (7 + 30) running ≡ (
  (advance 7 running).0 + (advance 30 (advance 7 running).1).0,
  (advance 30 (advance 7 running).1).1,
)
advance-chunks_example = advance-chunks 7 30 running (omega arith) (omega arith)
