-- ===== src/Machine/Resuming.antt =====
-- Which runs can be resumed, and what the derived outcome says of them.
use meta_harness.Common.{◌≡◌, ◌↔◌, ◌⊎◌, true, none, arith}
use meta_harness.Common.Outcome.{ok}
use meta_harness.Machine.State.{
  running, failed, waiting, RunMachineState, RunEvent, make_state, run_reason, resume,
}
use meta_harness.Machine.Transition.{transition, at_plan_approval}
use meta_harness.Machine.Projection.{RunOutcome, project_run_outcome}

-- `RESUME` is accepted exactly by a waiting run, a failed run, and a running one at the approval of
-- its plan; it keeps the phase and clears the reason. A completed run accepts no event at all.
pub transition-resume :
    (m : RunMachineState) (e : RunEvent)
    → resume ≡ ok e
    → ((n : RunMachineState) × (transition m e ≡ ok n)) ↔ (
        (waiting m.disposition ≡ true)
        ⊎ (m.disposition ≡ failed)
        ⊎ (m.disposition ≡ running) × (at_plan_approval m.phase ≡ true))
unfolding transition make_state run_reason resume
transition-resume m e r = (
  λ p. let h = p.1 in ground arith,
  λ p. (record m { disposition = running; reason = none }, ground arith),
)

-- When the derived outcome says that a run is eligible for a resume, the machine accepts `RESUME`.
pub resume_eligible-transition :
    (m : RunMachineState) (e : RunEvent) (o : RunOutcome)
    → resume ≡ ok e
    → project_run_outcome m ≡ ok o
    → o.resume_eligible ≡ true
    → transition m e ≡ ok (record m { disposition = running; reason = none })
unfolding transition make_state run_reason resume project_run_outcome
resume_eligible-transition m e o r p h = ground arith
