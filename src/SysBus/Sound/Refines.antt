-- ===== src/SysBus/Sound/Refines.antt =====
-- The system bus is a bus the CPU may rely on.
use reference_workload.Base.{ℕ, Option, arith}
use reference_workload.Fault.{Fault}
use reference_workload.Cpu.Registers.{Cpu}
use reference_workload.Cpu.Registers.WellFormed.{IsWf}
use reference_workload.Cpu.Machine.Ensures.{IsSafeBus}
use reference_workload.Cpu.Step.Safe.{IsSettled, step-IsSettled}
use reference_workload.SysBus.{SysBus}
use reference_workload.SysBus.Clock.{idle, take_nmi}
use reference_workload.SysBus.Reads.{read}
use reference_workload.SysBus.Writes.{write}
use reference_workload.SysBus.Run.{sys_bus, cpu_step}
use reference_workload.SysBus.Sound.{SafeDevices, IsSound}
use reference_workload.SysBus.Sound.Clock.{idle-IsSound, IsSound-weaken}
use reference_workload.SysBus.Sound.Reads.{read-IsSound}
use reference_workload.SysBus.Sound.Writes.{write-IsSound}

module _ {P A : Type 0} (safe : SafeDevices P A) (n : ℕ) (first : Option Fault) where
  -- Whatever the picture and audio units do within their contract, the system bus gives the CPU
  -- bytes, and every access, idle cycle and interrupt poll keeps its invariant: memory, the open bus
  -- latch and the one-byte registers hold bytes, the frame clock stays at or above `n`, and the
  -- fault `first`, if there is one, stays the recorded fault.
  pub sys_bus-IsSafeBus : IsSafeBus (sys_bus safe.dev) (IsSound safe n first)
  unfolding sys_bus take_nmi
  sys_bus-IsSafeBus = record {
    read_safe = λ addr b p h.
        let (v, k) = read-IsSound addr b h in
        (v, IsSound-weaken n (read safe.dev addr b).1 (omega arith) k);
    write_safe = λ addr v b p q h.
        IsSound-weaken n (write safe.dev addr v b) (omega arith) (write-IsSound addr v b q h);
    idle_safe = λ b h. IsSound-weaken n (idle b) (omega arith) (idle-IsSound b h);
    take_nmi_safe = λ b h. h;
  }

  -- One CPU step on the system bus, from well-formed registers and a bus in its invariant, whatever
  -- the opcode and whatever it writes, DMA included, leaves the registers settled and the bus in its
  -- invariant, with the clock still at or above `n` and the fault `first` still recorded.
  pub cpu_step-IsSound :
      (cpu : Cpu) (bus : SysBus P A)
      → IsWf cpu
      → IsSound safe n first bus
      → IsSettled (cpu_step safe.dev cpu bus).0 × IsSound safe n first (cpu_step safe.dev cpu bus).1
  cpu_step-IsSound cpu bus w h =
      step-IsSettled ⦃bus = sys_bus safe.dev⦄ sys_bus-IsSafeBus cpu bus w h
