-- ===== src/SysBus/Progress.antt =====
-- `run_cpu_until` of crates/refwork-emu/src/bus.rs ends.
use reference_workload.Base.{
  ℕ, zero, suc, ◌+◌, ◌*◌, ◌≤◌, ◌≡◌, refl, ◌⊎◌, inl, inr, true, false, not, if-split, arith, Option,
  none, some,
}
use reference_workload.Fault.{Fault}
use reference_workload.Cpu.Registers.{Cpu}
use reference_workload.Cpu.Registers.WellFormed.{IsWf}
use reference_workload.Cpu.Step.Progress.{IsTimedBus, step-advances}
use reference_workload.Cpu.Step.Safe.{IsSettled}
use reference_workload.SysBus.{SysBus, is_some, first_fault, record_fault, has_fault}
use reference_workload.SysBus.Run.{sys_bus, cpu_step, runs, run_cpu_until}
use reference_workload.SysBus.Sound.{SafeDevices, IsSound}
use reference_workload.SysBus.Sound.Clock.{idle-IsSound, IsSound-weaken}
use reference_workload.SysBus.Sound.Memory.{record_fault-IsSound}
use reference_workload.SysBus.Sound.Reads.{read-IsSound}
use reference_workload.SysBus.Sound.Refines.{sys_bus-IsSafeBus}

module _ {P A : Type 0} (safe : SafeDevices P A) (first : Option Fault) where
  sys_bus-IsTimedBus : IsTimedBus (sys_bus safe.dev) (λ n. IsSound safe n first) 6
  unfolding sys_bus
  sys_bus-IsTimedBus = record {
    safe = λ n. sys_bus-IsSafeBus safe n first;
    read_costs = λ n addr b p h. (read-IsSound addr b h).1;
    idle_costs = λ n b h. idle-IsSound b h;
  }

  -- On the system bus, from well-formed registers and a bus in its invariant, one step of a
  -- processor that is not stopped moves the frame clock by at least 6 master clocks, and keeps the
  -- invariants of the registers and of the bus.
  pub cpu_step-advances :
      (n : ℕ) (cpu : Cpu) (bus : SysBus P A)
      → IsWf cpu
      → cpu.stopped ≡ false
      → IsSound safe n first bus
      → IsSettled (cpu_step safe.dev cpu bus).0
        × IsSound safe (n + 6) first (cpu_step safe.dev cpu bus).1
  cpu_step-advances n cpu bus w h k =
      step-advances ⦃bus = sys_bus safe.dev⦄ sys_bus-IsTimedBus n cpu bus w h k

is_some-first_fault : (f : Fault) (old : Option Fault) → is_some (first_fault f old) ≡ true
unfolding is_some first_fault
is_some-first_fault f none = refl
is_some-first_fault f (some g) = refl

has_fault-record_fault :
    {P A : Type 0} (f : Fault) (self : SysBus P A) → has_fault (record_fault f self) ≡ true
unfolding record_fault
has_fault-record_fault f self = is_some-first_fault f self.fault

-- How a run ends: the clock has reached the target, or a fault is recorded.
abbrev pub IsOver : {P A : Type 0} → ℕ → SysBus P A → Type 0
IsOver target bus = (target ≤ bus.mclk_frame) ⊎ (has_fault bus ≡ true)

over_lem :
    {P A : Type 0} (target : ℕ) (bus : SysBus P A)
    → not (runs target bus) ≡ true
    → IsOver target bus
over_lem target bus h = ground (arith, h)

module _ {P A : Type 0} (safe : SafeDevices P A) (first : Option Fault) where
  abbrev pub EndsWell : ℕ → ℕ → Cpu × SysBus P A → Type 0
  EndsWell target n result = IsWf result.0 × IsSound safe n first result.1 × IsOver target result.1

  -- `run_cpu_until` ends: from well-formed registers and a bus in its invariant with its clock at
  -- `n` or later, one unit of fuel for each six master clocks up to the target is enough for the
  -- loop to stop by its own test. Then the clock has reached the target or a fault is recorded, a
  -- stopped processor included, both invariants hold, and a fault recorded before is still there.
  pub run_cpu_until-ends :
      (fuel target n : ℕ) (cpu : Cpu) (bus : SysBus P A)
      → IsWf cpu
      → IsSound safe n first bus
      → target ≤ n + 6 * fuel
      → EndsWell target n (run_cpu_until safe.dev fuel target cpu bus)
  unfolding run_cpu_until
  run_cpu_until-ends zero target n cpu bus w h enough = (w, h, inl (omega (arith, h.clock, enough)))
  run_cpu_until-ends (suc fuel) target n cpu bus w h enough =
      if-split (EndsWell target n) (not (runs target bus))
        (λ over. (w, h, over_lem target bus over))
        λ _.
          if-split (EndsWell target n) cpu.stopped
            (λ _. (w, record_fault-IsSound _ bus h, inr (has_fault-record_fault _ bus)))
            λ running.
              let (settled, k) = cpu_step-advances safe first n cpu bus w running h in
              let (cpu', bus') = cpu_step safe.dev cpu bus in
              let (w', k', over) =
                run_cpu_until-ends fuel target (n + 6) cpu' bus' settled.wf k
                  (omega (arith, enough)) in
              let ended = run_cpu_until safe.dev fuel target cpu' bus' in
              (w', IsSound-weaken n ended.1 (omega arith) k', over)
