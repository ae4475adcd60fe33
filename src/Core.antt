-- ===== src/Core.antt =====
-- The core facade and frame scheduler, `Core` of crates/refwork-emu/src/core_impl.rs. The drawing
-- half of the picture unit stands behind an interface.
pub mod Frame
pub mod PowerOn
pub mod Session
pub mod Examples
use reference_workload.Base.{
  ℕ, zero, suc, ◌+◌, ◌-◌, ◌*◌, Bool, true, false, ◌&&◌, if◌then◌else◌, ltb, leb, ◌==◌, bit_and,
}
use reference_workload.Fault.{FrameFlags, faulted, insert}
use reference_workload.Timing.{lines_per_frame, mclk_per_line, mclk_per_frame, first_visible_line}
use reference_workload.Cart.{Cartridge}
use reference_workload.Cpu.Registers
use reference_workload.Cpu.Registers.{Cpu}
use reference_workload.Cpu.Interrupts.{reset}
use reference_workload.Joypad.{Joypad}
use reference_workload.SysBus
use reference_workload.SysBus.{Devices, SysBus, has_fault}
use reference_workload.SysBus.PerLine.{start_line, init_hdma, execute_hdma}
use reference_workload.SysBus.Ports.{apu_catch_up}
use reference_workload.SysBus.Run.{sys_bus, run_cpu_until}

-- The methods of `Ppu` that the scheduler calls, and its back buffer.
pub record Screen (P : Type 0) : Type 0 where
  pub begin_frame : P → P
  pub set_line : ℕ → P → P
  pub begin_vblank : P → P
  pub render_scanline : ℕ → P → P
  pub back : P → ℕ → ℕ

pub record Core (P A : Type 0) : Type 0 where
  pub cpu : Cpu
  pub bus : SysBus P A
  pub frame : ℕ  -- u64
  pub front : ℕ → ℕ  -- [u8; FB_BYTES]

abbrev pub wram_init_byte : ℕ
wram_init_byte = 0x55

-- Fuel for the CPU loop of one line: a line ends at most a frame of clocks away, and each step of
-- the loop takes 6 clocks at least.
abbrev pub line_fuel : ℕ
line_fuel = 59562

module _ {P A : Type 0} (dev : Devices P A) where
  -- `Core::new`, with the units that `Ppu::new` and `Apu::new` give.
  unfoldable pub new : Cartridge → P → A → Core P A
  unfolding SysBus.new Registers.new reset sys_bus
  new cart ppu apu =
      let (done, cpu, bus) =
        reset ⦃bus = sys_bus dev⦄ Registers.new (SysBus.new (λ i. wram_init_byte) cart ppu apu) in
      record { cpu = cpu; bus = bus; frame = 0; front = λ i. 0 }

  -- `line >= FIRST_VISIBLE_LINE && line < self.bus.ppu.vblank_start_line()`.
  abbrev pub visible : ℕ → SysBus P A → Bool
  visible line bus = leb first_visible_line line && ltb line (dev.vblank_start_line bus.ppu)

module _ {P A : Type 0} where
  abbrev pub on_picture : (P → P) → SysBus P A → SysBus P A
  on_picture f bus = record bus { ppu = f bus.ppu }

  -- The bus at the start of a frame.
  unfoldable pub begin : ℕ → SysBus P A → SysBus P A
  begin pad bus = record bus {
    joypad = record (bus.joypad) { pad = bit_and pad 0x0FFF };
    frame_flags = 0;
    mclk_frame =
        if leb mclk_per_frame bus.mclk_frame
        then bus.mclk_frame - mclk_per_frame
        else bus.mclk_frame;
  }

module _ {P A : Type 0} (dev : Devices P A) (screen : Screen P) where
  -- The hooks at the start of a line.
  unfoldable pub open_line : ℕ → SysBus P A → SysBus P A
  unfolding start_line init_hdma
  open_line line bus =
      let bus1 = if line == 0 then on_picture screen.begin_frame bus else bus in
      let bus2 = on_picture (screen.set_line line) (start_line dev line bus1) in
      if line == 0
      then init_hdma bus2
      else if line == dev.vblank_start_line bus2.ppu
      then on_picture screen.begin_vblank bus2
      else bus2

  unfoldable pub hdma_line : ℕ → SysBus P A → SysBus P A
  unfolding execute_hdma
  hdma_line line bus = if visible dev line bus then execute_hdma dev bus else bus

  unfoldable pub render_line : ℕ → SysBus P A → SysBus P A
  render_line line bus =
      if visible dev line bus then on_picture (screen.render_scanline line) bus else bus

  -- The line from the CPU on; a fault breaks off.
  unfoldable pub cpu_line : ℕ → Cpu × SysBus P A → Cpu × SysBus P A
  unfolding run_cpu_until apu_catch_up render_line
  cpu_line line (cpu, bus) =
      let (cpu', bus1) = run_cpu_until dev line_fuel ((line + 1) * mclk_per_line) cpu bus in
      let bus2 = apu_catch_up dev bus1 in
      if has_fault bus1
      then (cpu', bus1)
      else if has_fault bus2
      then (cpu', bus2)
      else (cpu', render_line line bus2)

  unfoldable pub run_line : ℕ → Cpu × SysBus P A → Cpu × SysBus P A
  unfolding open_line hdma_line cpu_line
  run_line line (cpu, bus) =
      let bus1 = open_line line bus in
      let bus2 = hdma_line line bus1 in
      if visible dev line bus1 && has_fault bus2 then (cpu, bus2) else cpu_line line (cpu, bus2)

  -- `for line in 0..LINES_PER_FRAME`, the lines from `line` on.
  unfoldable pub run_lines : (remaining line : ℕ) → Cpu × SysBus P A → Cpu × SysBus P A
  unfolding run_line
  run_lines zero line state = state
  run_lines (suc remaining) line state =
      let state' = run_line line state in
      let rest = run_lines remaining (line + 1) state' in
      if has_fault state'.1 then state' else rest

  -- The end of a frame: a fault keeps the last completed picture and the counter.
  unfoldable pub finish : Cpu × SysBus P A → Core P A → FrameFlags × Core P A
  unfolding insert
  finish (cpu, bus) self =
      if has_fault bus
      then (let bus' = record bus { frame_flags = insert bus.frame_flags faulted } in
          (bus'.frame_flags, record self { cpu = cpu; bus = bus' }))
      else (
        bus.frame_flags,
        record self { cpu = cpu; bus = bus; front = screen.back bus.ppu; frame = self.frame + 1 },
      )

  unfoldable pub run_one_frame : ℕ → Core P A → FrameFlags × Core P A
  unfolding insert begin run_lines finish
  run_one_frame pad self =
      if has_fault self.bus
      then (insert self.bus.frame_flags faulted, self)
      else finish (run_lines lines_per_frame 0 (self.cpu, begin pad self.bus)) self
