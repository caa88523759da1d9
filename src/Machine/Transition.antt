-- ===== src/Machine/Transition.antt =====
-- models.py: `transition`, the single place where an event is refused.
use meta_harness.Common.{
  String, Bool, true, false, not, ◌&&◌, Option, none, some, ◌==◌, if◌then◌else◌,
}
use meta_harness.Common.Outcome.{Outcome, raised, ◌>>◌, refuse_if}
use meta_harness.Machine.Phase.{
  RunPhase, plan_approval, phase_eq, phase_in, phase_successors, completable_phases,
}
use meta_harness.Machine.State.{
  RunDisposition, running, wait_human, completed, failed, is_running, is_failed, waiting, terminal,
  MachineError, terminal_run, no_target, advance_not_running, advance_no_phase, not_a_successor,
  wait_posture, human_reserved, complete_not_running, not_completable, not_waiting, RunMachineState,
  make_state, RunEventKind, advance_kind, wait_kind, fail_kind, complete_kind, resume_kind,
  RunEvent,
}

-- `reason == "SPEC_DECISION_REQUIRED"`
unfoldable pub is_spec_decision : Option String → Bool
is_spec_decision none = false
is_spec_decision (some s) = s == "SPEC_DECISION_REQUIRED"

abbrev is_resume : RunEventKind → Bool
is_resume resume_kind = true
is_resume _ = false

abbrev is_human : RunDisposition → Bool
is_human wait_human = true
is_human _ = false

unfoldable pub resumable_failure : RunMachineState → RunEvent → Bool
resumable_failure m e = is_resume e.kind && is_failed m.disposition

abbrev pub at_plan_approval : Option RunPhase → Bool
at_plan_approval none = false
at_plan_approval (some p) = phase_eq p plan_approval

unfoldable pub approved_plan_gate : RunMachineState → RunEvent → Bool
approved_plan_gate m e = is_resume e.kind && is_running m.disposition && at_plan_approval m.phase

unfoldable pub advance_to : RunMachineState → Option RunPhase → Outcome MachineError RunMachineState
advance_to m none = raised no_target
advance_to m (some t) = do
  refuse_if (not (is_running m.disposition)) advance_not_running
  elim m.phase [
    | none ↦ raised advance_no_phase
    | some p ↦
        if phase_in t (phase_successors p)
        then make_state (some t) running none
        else raised not_a_successor
  ]

unfoldable pub wait_in :
    RunMachineState → Option RunDisposition → Option String → Outcome MachineError RunMachineState
wait_in m none r = raised wait_posture
wait_in m (some d) r = do
  refuse_if (not (waiting d)) wait_posture
  refuse_if (is_human d && not (is_spec_decision r)) human_reserved
  make_state m.phase d r

abbrev pub is_completable : Option RunPhase → Bool
is_completable none = false
is_completable (some p) = phase_in p completable_phases

unfoldable pub complete_run : RunMachineState → Outcome MachineError RunMachineState
complete_run m = do
  refuse_if (not (is_running m.disposition)) complete_not_running
  refuse_if (not (is_completable m.phase)) not_completable
  make_state m.phase completed none

unfoldable pub resume_run : RunMachineState → RunEvent → Outcome MachineError RunMachineState
unfolding resumable_failure approved_plan_gate
resume_run m e = do
  refuse_if
      (not (waiting m.disposition) && not (resumable_failure m e) && not (approved_plan_gate m e))
      not_waiting
  make_state m.phase running none

dispatch : RunEventKind → RunMachineState → RunEvent → Outcome MachineError RunMachineState
unfolding advance_to wait_in complete_run resume_run
dispatch advance_kind m e = advance_to m e.target
dispatch wait_kind m e = wait_in m e.posture e.reason
dispatch fail_kind m e = make_state m.phase failed e.reason
dispatch complete_kind m e = complete_run m
dispatch resume_kind m e = resume_run m e

unfoldable pub transition : RunMachineState → RunEvent → Outcome MachineError RunMachineState
unfolding dispatch
transition m e = do
  refuse_if (terminal m.disposition && not (resumable_failure m e)) terminal_run
  dispatch e.kind m e
