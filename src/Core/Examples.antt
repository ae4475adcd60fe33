-- ===== src/Core/Examples.antt =====
-- A core on the latches of the bus examples, with a screen that draws nothing.
use reference_workload.Base.{ℕ, [], ◌∷◌, arith}
use reference_workload.Core.{Screen, Core, new, run_one_frame}
use reference_workload.Core.Frame.{IsSafeScreen, IsReady, EndsFrame, run_one_frame-ends}
use reference_workload.Core.PowerOn.{new-IsReady}
use reference_workload.Core.Session.{IsCounted, new-unfaulted, power_on-IsCounted}
use reference_workload.SysBus.Examples.{latches, safe_latches, four_bytes, four_bytes-IsByteCart}

abbrev blank : Screen ℕ
blank = record {
  begin_frame = λ p. p;
  set_line = λ line p. p;
  begin_vblank = λ p. p;
  render_scanline = λ line p. p;
  back = λ p i. p;
}

blank-IsSafeScreen : IsSafeScreen safe_latches.picture blank
blank-IsSafeScreen = record {
  begin_frame_safe = λ p h. h;
  set_line_safe = λ line p h. h;
  begin_vblank_safe = λ p h. h;
  render_safe = λ line p h. h;
}

abbrev powered : Core ℕ ℕ
powered = new latches four_bytes 0 0

new-IsReady_example : IsReady safe_latches (powered.cpu, powered.bus)
new-IsReady_example =
    new-IsReady safe_latches four_bytes 0 0 four_bytes-IsByteCart (omega arith) (omega arith)

powered-IsReady : IsReady safe_latches (powered.cpu, powered.bus)
powered-IsReady =
    new-IsReady safe_latches four_bytes 0 0 four_bytes-IsByteCart (omega arith) (omega arith)

run_one_frame-ends_example :
    EndsFrame safe_latches blank blank-IsSafeScreen powered
      (run_one_frame latches blank 0x801 powered)
run_one_frame-ends_example =
    run_one_frame-ends safe_latches blank blank-IsSafeScreen 0x801 powered powered-IsReady.0
      powered-IsReady.1 (new-unfaulted safe_latches four_bytes 0 0)

power_on-IsCounted_example : IsCounted safe_latches blank (0 ∷ 1 ∷ []) powered
power_on-IsCounted_example =
    power_on-IsCounted safe_latches blank blank-IsSafeScreen four_bytes 0 0 (0 ∷ 1 ∷ [])
      four_bytes-IsByteCart (omega arith) (omega arith)
