-- ===== src/SysBus/Run.antt =====
-- The system bus as the CPU's bus, and `run_cpu_until`, crates/refwork-emu/src/bus.rs.
use reference_workload.Base.{ℕ, zero, suc, Bool, not, ◌&&◌, if◌then◌else◌, ltb, long_address}
use reference_workload.Fault.{cpu_stopped}
use reference_workload.Cpu.Registers.{Cpu}
use reference_workload.Cpu.Machine.{Bus}
use reference_workload.Cpu.Step.{step}
use reference_workload.SysBus.{Devices, SysBus, record_fault, has_fault}
use reference_workload.SysBus.Clock.{idle, take_nmi, irq_line}
use reference_workload.SysBus.Reads.{read}
use reference_workload.SysBus.Writes.{write}

-- `impl Bus for SysBus`.
unfoldable pub sys_bus : {P A : Type 0} → Devices P A → Bus (SysBus P A)
unfolding read write idle take_nmi record_fault
sys_bus dev = record {
  bus_read = read dev;
  bus_write = write dev;
  bus_idle = idle;
  bus_take_nmi = take_nmi;
  bus_irq_line = λ self. irq_line self;
  bus_fault = record_fault;
}

-- The loop test.
abbrev pub runs : {P A : Type 0} → ℕ → SysBus P A → Bool
runs target_mclk bus = ltb bus.mclk_frame target_mclk && not (has_fault bus)

module _ {P A : Type 0} (dev : Devices P A) where
  -- `cpu.step(bus)`.
  abbrev pub cpu_step : Cpu → SysBus P A → Cpu × SysBus P A
  cpu_step cpu bus = let (done, cpu', bus') = step ⦃bus = sys_bus dev⦄ cpu bus in (cpu', bus')

  unfoldable pub run_cpu_until : (fuel target_mclk : ℕ) → Cpu → SysBus P A → Cpu × SysBus P A
  run_cpu_until zero target_mclk cpu bus = (cpu, bus)
  run_cpu_until (suc fuel) target_mclk cpu bus =
      let (cpu', bus') = cpu_step cpu bus in
      let rest = run_cpu_until fuel target_mclk cpu' bus' in
      if not (runs target_mclk bus)
      then (cpu, bus)
      else if cpu.stopped
      then (cpu, record_fault (cpu_stopped (long_address cpu.pbr cpu.pc)) bus)
      else rest
