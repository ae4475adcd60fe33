-- ===== src/Cpu/Step.antt =====
-- One step of the CPU, crates/refwork-emu/src/cpu/mod.rs.
pub mod Safe
pub mod Progress
use reference_workload.Base.{Bool, false, not, ◌&&◌, if◌then◌else◌, has}
use reference_workload.Cpu.Flags
use reference_workload.Cpu.Registers.{Cpu, force_page_one}
use reference_workload.Cpu.Machine.{
  Bus, Action, pure, gets, ◌>>=◌, ◌>>◌, modify, take_nmi, irq_line,
}
use reference_workload.Cpu.Machine.{idle}
use reference_workload.Cpu.Stack.{fetch8}
use reference_workload.Cpu.Interrupts.{nmi, irq, service_interrupt}
use reference_workload.Cpu.Exec.{execute}

abbrev pub unmasked : Cpu → Bool
unmasked r = not (has r.p Flags.i)

unfoldable pub wake : Cpu → Cpu
wake r = record r { waiting = false }

module _ {S : Type 0} ⦃bus : Bus S⦄ where
  unfoldable pub instruction : Action S (Unit {0})
  instruction = do opcode ← fetch8; execute opcode

  -- Interrupt service at the instruction boundary, else one instruction.
  unfoldable pub line_boundary : Action S (Unit {0})
  unfolding instruction
  line_boundary = do
    line ← irq_line
    open_mask ← gets unmasked
    if line && open_mask then service_interrupt irq else instruction

  unfoldable pub boundary : Action S (Unit {0})
  unfolding line_boundary
  boundary = do edge ← take_nmi; if edge then service_interrupt nmi else line_boundary

  -- The release of WAI by the IRQ line, which goes on to the boundary.
  unfoldable pub release : Action S (Unit {0})
  unfolding wake boundary
  release = do
    modify wake
    open_mask ← gets unmasked
    if open_mask then service_interrupt irq else pure tt
    boundary

  unfoldable pub wake_nmi : Action S (Unit {0})
  unfolding wake
  wake_nmi = do modify wake; service_interrupt nmi

  unfoldable pub line_wait : Action S (Unit {0})
  unfolding release
  line_wait = do line ← irq_line; if line then release else idle

  unfoldable pub wait_step : Action S (Unit {0})
  unfolding wake_nmi line_wait
  wait_step = do edge ← take_nmi; if edge then wake_nmi else line_wait

  unfoldable pub step_inner : Action S (Unit {0})
  unfolding wait_step boundary
  step_inner = do
    halted ← gets (λ r. r.stopped)
    asleep ← gets (λ r. r.waiting)
    if halted then pure tt else if asleep then wait_step else boundary

  unfoldable pub step : Action S (Unit {0})
  unfolding step_inner
  step = do modify force_page_one; step_inner; modify force_page_one
