-- ===== src/Core/PowerOn.antt =====
-- The core from power-on through any number of frames.
use reference_workload.Base.{ℕ, ◌^◌, ◌<◌, none, arith}
use reference_workload.Cart.{Cartridge}
use reference_workload.Cpu.Interrupts.{reset, reset_registers}
use reference_workload.Cpu.Interrupts.Safe.{reset_registers-IsWf, reset_tail-Ensures}
use reference_workload.Cpu.Machine.{◌>>=◌, modify}
use reference_workload.Cpu.Machine.Ensures.{Ensures-bind, Ensures-idle}
use reference_workload.Cpu.Registers
use reference_workload.Cpu.Registers.{Cpu}
use reference_workload.Cpu.Registers.WellFormed.{IsFit}
use reference_workload.Core.{new}
use reference_workload.Core.Frame.{IsReady}
use reference_workload.SysBus
use reference_workload.SysBus.{SysBus, has_fault}
use reference_workload.SysBus.Run.{sys_bus}
use reference_workload.SysBus.Sound.{SafeDevices, IsByteCart, IsByteChannel, IsSound}
use reference_workload.SysBus.Sound.Refines.{sys_bus-IsSafeBus}
use reference_workload.Dma.{idle_channel}

idle_channel-IsByteChannel : IsByteChannel idle_channel
unfolding idle_channel
idle_channel-IsByteChannel = record {
  dmap_byte = omega arith;
  bbad_byte = omega arith;
  a1b_byte = omega arith;
  dasb_byte = omega arith;
  ntrl_byte = omega arith;
}

pub new_registers-IsFit : IsFit Registers.new
unfolding Registers.new
new_registers-IsFit = ground arith

module _ {P A : Type 0} (safe : SafeDevices P A) where
  -- The bus that `SysBus::new` makes over a filled work RAM.
  pub new_bus-IsSound :
      (fill : ℕ) (cart : Cartridge) (ppu : P) (apu : A)
      → fill < 2 ^ 8
      → IsByteCart cart
      → safe.picture ppu
      → safe.audio apu
      → IsSound safe 0 none (SysBus.new (λ i. fill) cart ppu apu)
  unfolding SysBus.new
  new_bus-IsSound fill cart ppu apu f c p a = record {
    wram_bytes = λ i. f;
    cart_bytes = c;
    ppu_sound = p;
    apu_sound = a;
    channels = λ i. idle_channel-IsByteChannel;
    clock = omega arith;
    mdr_byte = omega arith;
    wrio_byte = omega arith;
    fault_stays = λ g e. absurd (ground (arith, e));
  }

  -- `Core::new` gives a core whose registers are well formed and whose bus is in its invariant, for
  -- a valid cartridge of bytes and units in their invariants, whatever the reset vector holds.
  pub new-IsReady :
      (cart : Cartridge) (ppu : P) (apu : A)
      → IsByteCart cart
      → safe.picture ppu
      → safe.audio apu
      → IsReady safe ((new safe.dev cart ppu apu).cpu, (new safe.dev cart ppu apu).bus)
  unfolding new reset ◌>>=◌ modify
  new-IsReady cart ppu apu c p a =
      let bus = sys_bus-IsSafeBus safe 0 none in
      let start = SysBus.new (λ i. 0x55) cart ppu apu in
      let tail = Ensures-bind (Ensures-idle ⦃bus = sys_bus safe.dev⦄ bus) λ _ _.
        Ensures-bind (Ensures-idle ⦃bus = sys_bus safe.dev⦄ bus)
          λ _ _. reset_tail-Ensures ⦃bus = sys_bus safe.dev⦄ bus in
      let (_, w, h) =
        tail.at (reset_registers Registers.new) start
          (reset_registers-IsWf Registers.new new_registers-IsFit)
          (new_bus-IsSound 0x55 cart ppu apu (omega arith) c p a) in
      (w, h)
