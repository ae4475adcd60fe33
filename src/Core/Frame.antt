-- ===== src/Core/Frame.antt =====
-- A frame ends, completed or faulted, from any sound state of the core.
use reference_workload.Base.{
  if-holds, ℕ, zero, suc, ◌+◌, ◌-◌, ◌*◌, ◌<◌, ◌≤◌, ◌≡◌, refl, ◌⊎◌, inl, inr, true, false, ◌&&◌,
  ◌==◌, if◌then◌else◌, if-split, leb, bit_or, arith, none,
}
use mathlib.Core.Path.{subst}
use reference_workload.Base.Bits.{bit_and-ones, bit-bit_or}
use reference_workload.Fault.{FrameFlags, faulted, contains, insert}
use reference_workload.Timing.{mclk_per_line, mclk_per_frame, lines_per_frame}
use reference_workload.Cpu.Registers.{Cpu}
use reference_workload.Cpu.Registers.WellFormed.{IsWf}
use reference_workload.Core.{
  Screen, Core, line_fuel, visible, on_picture, open_line, hdma_line, render_line, cpu_line,
  run_line, run_lines, begin, finish, run_one_frame,
}
use reference_workload.SysBus.{SysBus, has_fault}
use reference_workload.SysBus.PerLine.{start_line}
use reference_workload.SysBus.Ports.{apu_catch_up}
use reference_workload.SysBus.Progress.{IsOver, run_cpu_until-ends}
use reference_workload.SysBus.Run.{run_cpu_until}
use reference_workload.SysBus.Sound.{SafeDevices, IsSound}
use reference_workload.SysBus.Sound.Clock.{with_clock, IsSound-weaken}
use reference_workload.SysBus.Sound.PerLine.{
  start_line-IsSound, init_hdma-IsSound, execute_hdma-IsSound,
}
use reference_workload.SysBus.Sound.Ports.{with_ppu, apu_catch_up-IsSound}

-- The drawing half keeps the invariant of the picture unit.
pub record IsSafeScreen {P : Type 0} (picture : P → Type 0) (screen : Screen P) : Type 0 where
  pub begin_frame_safe : (p : P) → picture p → picture (screen.begin_frame p)
  pub set_line_safe : (line : ℕ) (p : P) → picture p → picture (screen.set_line line p)
  pub begin_vblank_safe : (p : P) → picture p → picture (screen.begin_vblank p)
  pub render_safe : (line : ℕ) (p : P) → picture p → picture (screen.render_scanline line p)

insert-contains : (flags : FrameFlags) → contains (insert flags faulted) faulted ≡ true
unfolding contains insert
insert-contains flags = ground (arith, bit_and-ones 1 (bit_or flags 1), bit-bit_or 0 flags 1)

module _ {P A : Type 0} (safe : SafeDevices P A) where
  -- The CPU's registers and the bus between two lines.
  abbrev pub IsReady : Cpu × SysBus P A → Type 0
  IsReady state = IsWf state.0 × IsSound safe 0 none state.1

  -- Faulted, or past the clock of the end of a line.
  abbrev pub IsDone : ℕ → SysBus P A → Type 0
  IsDone mclk bus = (has_fault bus ≡ true) ⊎ IsSound safe mclk none bus

  abbrev pub EndsAt : ℕ → Cpu × SysBus P A → Type 0
  EndsAt mclk state = IsReady state × IsDone mclk state.1

  -- A run that is over without a fault has reached its clock.
  reached :
      (mclk : ℕ) (bus : SysBus P A)
      → IsSound safe 0 none bus
      → IsOver mclk bus
      → has_fault bus ≡ false
      → IsSound safe mclk none bus
  reached mclk bus h (inl late) f = with_clock mclk bus.mclk_frame bus.mclk_total bus late h
  reached mclk bus h (inr t) f = absurd (ground (arith, t, f))

module _ {P A : Type 0} (safe : SafeDevices P A) (screen : Screen P)
    (drawn : IsSafeScreen safe.picture screen) where
  open_line-IsSound :
      (n line : ℕ) (bus : SysBus P A)
      → IsSound safe n none bus
      → IsSound safe n none (open_line safe.dev screen line bus)
  unfolding open_line
  open_line-IsSound n line bus h =
      let bus1 = if line == 0 then on_picture screen.begin_frame bus else bus in
      let bus2 = start_line safe.dev line bus1 in
      let bus3 = on_picture (screen.set_line line) bus2 in
      let h1 =
        if-holds (IsSound safe n none) (line == 0)
          (with_ppu (screen.begin_frame bus.ppu) bus (drawn.begin_frame_safe bus.ppu h.ppu_sound) h)
          h in
      let h2 = start_line-IsSound line bus1 h1 in
      let h3 =
        with_ppu (screen.set_line line bus2.ppu) bus2
          (drawn.set_line_safe line bus2.ppu h2.ppu_sound) h2 in
      if-holds (IsSound safe n none) (line == 0) (init_hdma-IsSound bus3 h3) (
        if-holds (IsSound safe n none) (line == safe.dev.vblank_start_line bus3.ppu)
          (with_ppu (screen.begin_vblank bus3.ppu) bus3
            (drawn.begin_vblank_safe bus3.ppu h3.ppu_sound) h3)
          h3)

  hdma_line-IsSound :
      (n line : ℕ) (bus : SysBus P A)
      → IsSound safe n none bus
      → IsSound safe n none (hdma_line safe.dev screen line bus)
  unfolding hdma_line
  hdma_line-IsSound n line bus h =
      if-holds (IsSound safe n none) (visible safe.dev line bus) (execute_hdma-IsSound bus h) h

  render_line-IsSound :
      (n line : ℕ) (bus : SysBus P A)
      → IsSound safe n none bus
      → IsSound safe n none (render_line safe.dev screen line bus)
  unfolding render_line
  render_line-IsSound n line bus h =
      if-holds (IsSound safe n none) (visible safe.dev line bus)
        (with_ppu (screen.render_scanline line bus.ppu) bus
          (drawn.render_safe line bus.ppu h.ppu_sound) h)
        h

  cpu_line-ends :
      (line : ℕ) (state : Cpu × SysBus P A)
      → line < 262
      → IsReady safe state
      → EndsAt safe ((line + 1) * mclk_per_line) (cpu_line safe.dev screen line state)
  unfolding cpu_line
  cpu_line-ends line (cpu, bus) below (w, h) =
      let target = (line + 1) * mclk_per_line in
      let (cpu', bus1) = run_cpu_until safe.dev line_fuel target cpu bus in
      let bus2 = apu_catch_up safe.dev bus1 in
      let (w', h1, over) =
        run_cpu_until-ends safe none line_fuel target 0 cpu bus w h (omega (arith, below)) in
      if-split (EndsAt safe target) (has_fault bus1) (λ t. ((w', h1), inl t))
        λ f.
          let h2 = apu_catch_up-IsSound bus1 (reached safe target bus1 h1 over f) in
          let h3 = render_line-IsSound target line bus2 h2 in
          if-split (EndsAt safe target) (has_fault bus2)
            (λ t. ((w', IsSound-weaken 0 bus2 (omega arith) h2), inl t))
            λ _. (
              (w', IsSound-weaken 0 (render_line safe.dev screen line bus2) (omega arith) h3),
              inr h3,
            )

  run_line-ends :
      (line : ℕ) (state : Cpu × SysBus P A)
      → line < 262
      → IsReady safe state
      → EndsAt safe ((line + 1) * mclk_per_line) (run_line safe.dev screen line state)
  unfolding run_line
  run_line-ends line (cpu, bus) below (w, h) =
      let bus1 = open_line safe.dev screen line bus in
      let bus2 = hdma_line safe.dev screen line bus1 in
      let h2 = hdma_line-IsSound 0 line bus1 (open_line-IsSound 0 line bus h) in
      if-split (EndsAt safe ((line + 1) * mclk_per_line))
        (visible safe.dev line bus1 && has_fault bus2) (λ t. ((w, h2), inl (ground (arith, t))))
        λ _. cpu_line-ends line (cpu, bus2) below (w, h2)

  -- `last` is the number of the line after the remaining ones.
  run_lines-ends :
      (last remaining line : ℕ) (state : Cpu × SysBus P A)
      → line + suc remaining ≡ last
      → last ≤ 262
      → IsReady safe state
      → EndsAt safe (last * mclk_per_line) (run_lines safe.dev screen (suc remaining) line state)
  unfolding run_lines
  run_lines-ends last zero line state e below h =
      let state' = run_line safe.dev screen line state in
      let k =
        subst (λ (m : ℕ). EndsAt safe (m * mclk_per_line) state') e
          (run_line-ends line state (omega (arith, e, below)) h) in
      if-holds (EndsAt safe (last * mclk_per_line)) (has_fault state'.1) k k
  run_lines-ends last (suc remaining) line state e below h =
      let state' = run_line safe.dev screen line state in
      let (ready, done) = run_line-ends line state (omega (arith, e, below)) h in
      if-split (EndsAt safe (last * mclk_per_line)) (has_fault state'.1) (λ t. (ready, inl t))
        λ _. run_lines-ends last remaining (line + 1) state' (omega (arith, e)) below ready

  -- How a frame that starts from `self` may end: completed, with the counter one up, the picture
  -- published and the clock at the end of a frame, or faulted, with the flag, and both as they were.
  unfoldable pub IsCompleted : Core P A → FrameFlags × Core P A → Type 0
  IsCompleted self (flags, self') =
      (has_fault self'.bus ≡ false)
      × (self'.frame ≡ self.frame + 1)
      × (self'.front ≡ screen.back self'.bus.ppu)
      × (mclk_per_frame ≤ self'.bus.mclk_frame)

  unfoldable pub IsHalted : Core P A → FrameFlags × Core P A → Type 0
  IsHalted self (flags, self') =
      (has_fault self'.bus ≡ true)
      × (contains flags faulted ≡ true)
      × (self'.frame ≡ self.frame)
      × (self'.front ≡ self.front)

  abbrev pub EndsFrame : Core P A → FrameFlags × Core P A → Type 0
  EndsFrame self result =
      IsReady safe (result.1.cpu, result.1.bus) × (IsCompleted self result ⊎ IsHalted self result)

  finish-ends :
      (state : Cpu × SysBus P A) (self : Core P A)
      → EndsAt safe mclk_per_frame state
      → EndsFrame self (finish safe.dev screen state self)
  unfolding finish IsCompleted IsHalted
  finish-ends (cpu, bus) self ((w, h), done) =
      if-split (EndsFrame self) (has_fault bus)
        (λ t. ((w, h), inr (t, insert-contains bus.frame_flags, refl, refl)))
        λ f. ((w, h), inl (f, refl, refl, clock_of done f))
    where
      clock_of :
          IsDone safe mclk_per_frame bus → has_fault bus ≡ false → mclk_per_frame ≤ bus.mclk_frame
      clock_of (inl t) f = absurd (ground (arith, t, f))
      clock_of (inr k) f = k.clock

  begin-IsSound :
      (pad : ℕ) (bus : SysBus P A) → IsSound safe 0 none bus → IsSound safe 0 none (begin pad bus)
  unfolding begin
  begin-IsSound pad bus h =
      with_clock 0
        (if leb mclk_per_frame bus.mclk_frame
          then bus.mclk_frame - mclk_per_frame
          else bus.mclk_frame)
        bus.mclk_total bus (omega arith) h

  -- A frame ends. From a core that is not faulted, with well-formed registers and a bus in its
  -- invariant, over picture and audio units within their contract and a screen that keeps the
  -- picture unit's invariant, whatever the pad and the program, `run_one_frame` leaves both
  -- invariants, and has either completed the frame (no fault, the counter one up, the back buffer
  -- published, and the clock past the end of line 261), or halted (a fault, FAULTED among the flags,
  -- and the counter and the published picture as they were).
  pub run_one_frame-ends :
      (pad : ℕ) (self : Core P A)
      → IsWf self.cpu
      → IsSound safe 0 none self.bus
      → has_fault self.bus ≡ false
      → EndsFrame self (run_one_frame safe.dev screen pad self)
  unfolding run_one_frame
  run_one_frame-ends pad self w h f =
      if-split (EndsFrame self) (has_fault self.bus) (λ t. absurd (ground (arith, t, f)))
        λ _.
          finish-ends (run_lines safe.dev screen lines_per_frame 0 (self.cpu, begin pad self.bus))
            self
            (run_lines-ends 262 261 0 (self.cpu, begin pad self.bus) (omega arith) (omega arith)
              (w, begin-IsSound pad self.bus h))
