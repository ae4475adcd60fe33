-- ===== src/SysBus/Examples.antt =====
-- The system bus with two latches for its picture and audio units.
use reference_workload.Base.{true, ℕ, ◌+◌, ◌*◌, ◌^◌, ◌<◌, ◌≡◌, refl, false, [], ◌∷◌, none, arith}
use reference_workload.Cart.{Cartridge}
use reference_workload.Cpu.Interrupts.{reset_registers}
use reference_workload.Cpu.Interrupts.Safe.{reset_registers-IsWf}
use reference_workload.Cpu.Machine.Ensures.{IsSafeBus}
use reference_workload.Cpu.Registers
use reference_workload.Cpu.Registers.{Cpu}
use reference_workload.Cpu.Registers.WellFormed.{IsWf, IsFit}
use reference_workload.Cpu.Step.Safe.{IsSettled}
use reference_workload.Dma.{idle_channel}
use reference_workload.SysBus
use reference_workload.SysBus.{Devices, SysBus}
use reference_workload.SysBus.General.{dma_channel}
use reference_workload.SysBus.General.Exact.{IsExact, dma_channel-IsExact}
use reference_workload.Cpu.Machine.Ram.{IsRam}
use reference_workload.SysBus.Clock.{recompute_irq_target}
use reference_workload.SysBus.Clock.Armed.{IsAfter, recompute_irq_target-IsAfter}
use reference_workload.SysBus.WorkRam.{sys_bus-IsRam}
use reference_workload.SysBus.Writes.Division.{divided_by, divided_by-exact}
use reference_workload.SysBus.Run.{sys_bus, cpu_step, run_cpu_until}
use reference_workload.SysBus.Progress.{EndsWell, cpu_step-advances, run_cpu_until-ends}
use reference_workload.SysBus.Sound.{SafeDevices, IsByteCart, IsSound}
use reference_workload.SysBus.Sound.Refines.{sys_bus-IsSafeBus, cpu_step-IsSound}

-- Each unit keeps the last byte written, and gives it.
abbrev pub latches : Devices ℕ ℕ
latches = record {
  ppu_write = λ reg v p. (none, v);
  ppu_read = λ reg mdr p. (p, p);
  latch_hv_counters = λ dot p. p;
  vblank_start_line = λ p. 225;
  cpu_read_port = λ port a. a;
  cpu_write_port = λ port v a. v;
  advance_master_cycles = λ n a. (none, a);
  apu_step = λ a. a;
  apu_halted = λ a. none;
  apu_pc = λ a. 0xFFC0;
  spc_port0 = λ a. a;
}

abbrev pub safe_latches : SafeDevices ℕ ℕ
safe_latches = record {
  dev = latches;
  picture = λ p. p < 2 ^ 8;
  audio = λ a. a < 2 ^ 8;
  ppu_write_safe = λ reg v p h k. h;
  ppu_read_safe = λ reg mdr p h k. (k, k);
  latch_safe = λ dot p h. h;
  port_read_safe = λ port a h. h;
  port_write_safe = λ port v a h k. h;
  advance_safe = λ n a h. h;
  apu_step_safe = λ a h. h;
}

abbrev pub four_bytes : Cartridge
four_bytes = record { rom = 0x00 ∷ 0x80 ∷ 0xEA ∷ 0x58 ∷ []; rom_mask = 3; sram = none }

pub four_bytes-IsByteCart : IsByteCart four_bytes
four_bytes-IsByteCart = record {
  in_bounds = record { rom_bytes = omega arith; masked = refl; sram_bytes = tt };
  rom_bytes = (omega arith, (omega arith, (omega arith, (omega arith, tt))));
  sram_bytes = tt;
}

-- A bus whose work RAM is full of NOPs, and a processor after reset, at address 0.
unfoldable nops : SysBus ℕ ℕ
unfolding SysBus.new
nops = SysBus.new (λ i. 0xEA) four_bytes 0 0

nops-IsSound : IsSound safe_latches 0 none nops
unfolding nops SysBus.new idle_channel
nops-IsSound = record {
  wram_bytes = λ i. omega arith;
  cart_bytes = four_bytes-IsByteCart;
  ppu_sound = omega arith;
  apu_sound = omega arith;
  channels = λ i. record {
    dmap_byte = omega arith;
    bbad_byte = omega arith;
    a1b_byte = omega arith;
    dasb_byte = omega arith;
    ntrl_byte = omega arith;
  };
  clock = omega arith;
  mdr_byte = omega arith;
  wrio_byte = omega arith;
  fault_stays = λ g e. absurd (ground (arith, e));
}

unfoldable fresh : Cpu
unfolding reset_registers Registers.new
fresh = reset_registers Registers.new

fresh-IsWf : IsWf fresh
unfolding fresh
fresh-IsWf = reset_registers-IsWf Registers.new start-IsFit
  where
    start-IsFit : IsFit Registers.new
    start-IsFit = ground arith

fresh_runs : fresh.stopped ≡ false
unfolding fresh
fresh_runs = refl

sys_bus-IsSafeBus_example : IsSafeBus (sys_bus latches) (IsSound safe_latches 0 none)
sys_bus-IsSafeBus_example = sys_bus-IsSafeBus safe_latches 0 none

cpu_step-IsSound_example :
    IsSettled (cpu_step latches fresh nops).0
    × IsSound safe_latches 0 none (cpu_step latches fresh nops).1
cpu_step-IsSound_example = cpu_step-IsSound safe_latches 0 none fresh nops fresh-IsWf nops-IsSound

cpu_step-advances_example :
    IsSettled (cpu_step latches fresh nops).0
    × IsSound safe_latches (0 + 6) none (cpu_step latches fresh nops).1
cpu_step-advances_example =
    cpu_step-advances safe_latches none 0 fresh nops fresh-IsWf fresh_runs nops-IsSound

run_cpu_until-ends_example :
    EndsWell safe_latches none 1364 0 (run_cpu_until latches 228 1364 fresh nops)
run_cpu_until-ends_example =
    run_cpu_until-ends safe_latches none 228 1364 0 fresh nops fresh-IsWf nops-IsSound (omega arith)

-- Channel 0 sends five bytes down from $7E:0002 to the work RAM port, around the end of the page.
unfoldable sending : SysBus ℕ ℕ
unfolding nops idle_channel
sending = record nops {
  dma = λ i. record idle_channel { dmap = 0x10; bbad = 0x80; a1t = 2; a1b = 0x7E; das = 5 };
}

dma_channel-IsExact_example : IsExact latches 0 sending (dma_channel latches 0 sending)
unfolding sending
dma_channel-IsExact_example = dma_channel-IsExact latches 0 sending (omega arith) (omega arith)

sys_bus-IsRam_example :
    IsRam (sys_bus latches) (λ addr (self : SysBus ℕ ℕ). self.wram addr) (λ addr. addr < 0x2000)
sys_bus-IsRam_example = sys_bus-IsRam latches

-- A V IRQ on line 100, in the middle of line 0.
unfoldable waiting : SysBus ℕ ℕ
unfolding nops
waiting = record nops { nmitimen = 0x20; vtime = 100; mclk_frame = 500; line = 0 }

recompute_irq_target-IsAfter_example :
    IsAfter (recompute_irq_target waiting).mclk_frame (recompute_irq_target waiting).irq_target_mclk
unfolding waiting
recompute_irq_target-IsAfter_example = recompute_irq_target-IsAfter waiting (omega arith)

divided_by-exact_example :
    ((divided_by 100 1 7 nops).rddiv * 7 + (divided_by 100 1 7 nops).rdmpy ≡ 1 * 256 + 100)
    × ((divided_by 100 1 7 nops).rdmpy < 7)
unfolding nops SysBus.new
divided_by-exact_example =
    divided_by-exact 100 1 7 nops (omega arith) (omega arith) (omega arith) (omega arith)

-- Channel 1 in an entry of three lines in the repeat mode.
unfoldable repeating : SysBus ℕ ℕ
unfolding nops
repeating = record nops {
  hdmaen = 2;
  hdma = λ i. record { active = true; do_transfer = true };
  dma = λ i. record idle_channel { a1b = 0x7E; ntrl = 0x83 };
}
