-- ===== src/Cpu/Step/Safe.antt =====
-- The invariant of the CPU over whole steps, and its consequence for the bus.
use reference_workload.Base.{◌+◌, ◌%◌, ◌≡◌, true, ◌&&◌, arith, page_one_lem}
use reference_workload.Cpu.Registers.{Cpu, force_page_one}
use reference_workload.Cpu.Registers.WellFormed.{IsWf, force_page_one-IsWf}
use reference_workload.Cpu.Machine.{Bus, ◌>>=◌, modify}
use reference_workload.Cpu.Machine.Ensures.{
  IsSafeBus, IsAny, Ensures, Ensures-pure, Ensures-bind, Ensures-if, Ensures-modify, Ensures-idle,
  Ensures-take_nmi, Ensures-irq_line,
}
use reference_workload.Cpu.Stack.Safe.{IsWf-IsLoose, fetch8-Ensures}
use reference_workload.Cpu.Interrupts.{nmi, irq}
use reference_workload.Cpu.Interrupts.Safe.{service_interrupt-Ensures}
use reference_workload.Cpu.Addressing.Access.{gets-IsAny}
use reference_workload.Cpu.Exec.Safe.Execute.{execute-Ensures}
use reference_workload.Cpu.Step.{
  wake, instruction, line_boundary, boundary, release, wake_nmi, line_wait, wait_step, step_inner,
  step,
}

-- The registers between two steps: well formed, with the stack in page 1 in emulation mode.
pub record IsSettled (r : Cpu) : Type 0 where
  pub wf : IsWf r
  pub paged : r.e ≡ true → r.s ≡ 256 + r.s % 256

pub wake-IsWf : (r : Cpu) → IsWf r → IsWf (wake r)
unfolding wake
wake-IsWf r w = ground arith

pub force_page_one-IsSettled : (r : Cpu) → IsWf r → IsSettled (force_page_one r)
unfolding force_page_one
force_page_one-IsSettled r w = record {
  wf = force_page_one-IsWf r w;
  paged = ground (arith, page_one_lem r.s);
}

module _ {S : Type 0} ⦃bus : Bus S⦄ {keep : S → Type 0} (safe : IsSafeBus bus keep) where
  instruction-Ensures : Ensures IsWf keep instruction IsAny
  unfolding instruction
  instruction-Ensures =
      Ensures-bind (fetch8-Ensures IsWf-IsLoose safe) λ opcode _. execute-Ensures safe opcode

  line_boundary-Ensures : Ensures IsWf keep line_boundary IsAny
  unfolding line_boundary
  line_boundary-Ensures = Ensures-bind (Ensures-irq_line safe) λ line _.
      Ensures-bind (gets-IsAny safe _)
        λ t _. Ensures-if (line && t) _ _ (service_interrupt-Ensures safe irq) instruction-Ensures

  boundary-Ensures : Ensures IsWf keep boundary IsAny
  unfolding boundary
  boundary-Ensures =
      Ensures-bind (Ensures-take_nmi safe)
        λ edge _. Ensures-if edge _ _ (service_interrupt-Ensures safe nmi) line_boundary-Ensures

  release-Ensures : Ensures IsWf keep release IsAny
  unfolding release
  release-Ensures = Ensures-bind (Ensures-modify _ wake-IsWf) λ _ _.
      Ensures-bind (gets-IsAny safe _) λ t _.
        Ensures-bind {Q = IsAny}
          (Ensures-if t _ _ (service_interrupt-Ensures safe irq) (Ensures-pure tt tt))
          λ _ _. boundary-Ensures

  wake_nmi-Ensures : Ensures IsWf keep wake_nmi IsAny
  unfolding wake_nmi
  wake_nmi-Ensures =
      Ensures-bind (Ensures-modify _ wake-IsWf) λ _ _. service_interrupt-Ensures safe nmi

  line_wait-Ensures : Ensures IsWf keep line_wait IsAny
  unfolding line_wait
  line_wait-Ensures =
      Ensures-bind (Ensures-irq_line safe)
        λ line _. Ensures-if line _ _ release-Ensures (Ensures-idle safe)

  wait_step-Ensures : Ensures IsWf keep wait_step IsAny
  unfolding wait_step
  wait_step-Ensures =
      Ensures-bind (Ensures-take_nmi safe)
        λ edge _. Ensures-if edge _ _ wake_nmi-Ensures line_wait-Ensures

  step_inner-Ensures : Ensures IsWf keep step_inner IsAny
  unfolding step_inner
  step_inner-Ensures = Ensures-bind (gets-IsAny safe _) λ halted _.
      Ensures-bind (gets-IsAny safe _) λ asleep _.
        Ensures-if halted _ _ (Ensures-pure tt tt)
          (Ensures-if asleep _ _ wait_step-Ensures boundary-Ensures)

  -- From well-formed registers and a bus in its invariant, whatever the opcode fetched and whatever
  -- interrupt is pending, one step leaves the registers well formed, with the stack pointer in page
  -- 1 in emulation mode, and the bus in its invariant. The bus need only accept reads at 24-bit
  -- addresses, writes of bytes there, idle cycles and NMI polls, so a step performs no other access.
  pub step-IsSettled :
      (r : Cpu) (b : S) → IsWf r → keep b → IsSettled (step r b).1 × keep (step r b).2
  unfolding step ◌>>=◌ modify
  step-IsSettled r b w k =
      let (_, w', k') = step_inner-Ensures.at (force_page_one r) b (force_page_one-IsWf r w) k in
      (force_page_one-IsSettled _ w', k')
