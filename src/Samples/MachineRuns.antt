-- ===== src/Samples/MachineRuns.antt =====
-- A run from its context to its publication, and a run that waits for a decision.
use meta_harness.Common.{◌++◌, String, ◌≡◌, refl, ◌↔◌, false, Option, none, some, List, [], ◌∷◌}
use meta_harness.Common.Outcome.{ok}
use meta_harness.Common.Text.{is_blank, is_space}
use meta_harness.Machine.Phase.{
  RunPhase, context, planner, candidate_ready, candidate_push, publish,
}
use meta_harness.Machine.State.{
  running, wait_human, completed, failed, waiting, RunMachineState, run_reason, resume,
  RunEventKind, advance_kind, wait_kind, complete_kind, resume_kind, RunEvent,
}
use meta_harness.Machine.Transition.{transition, is_spec_decision}
use meta_harness.Machine.Projection.{
  RunOutcome, project_run_outcome, status_published, completed_status,
}
use meta_harness.Machine.Legal.{Step, state, transition_iff}
use meta_harness.Machine.Live.{drive-completed, wake, NoResume}
use meta_harness.Machine.Runs.{drive, handed_over, project-drive, published-handed_over}

abbrev event : RunEventKind → Option RunPhase → Option String → RunEvent
event k t r = record { kind = k; target = t; posture = none; reason = r }

abbrev started : RunMachineState
started = state (some context) running none

abbrev to_planner : RunEvent
to_planner = event advance_kind (some planner) none

transition_iff_example :
    (transition started to_planner ≡ ok (state (some planner) running none))
    ↔ Step started to_planner (state (some planner) running none)
unfolding run_reason
transition_iff_example = transition_iff started to_planner (state (some planner) running none) refl

abbrev ask : RunEvent
ask = record {
  kind = wait_kind;
  target = none;
  posture = some wait_human;
  reason = some "SPEC_DECISION_REQUIRED";
}

project-drive_example :
    (o : RunOutcome) × (project_run_outcome
        (state (some planner) wait_human (some "SPEC_DECISION_REQUIRED"))
      ≡ ok o)
unfolding drive transition run_reason is_spec_decision is_blank is_space
    meta_harness.Machine.Phase.phase_in meta_harness.Machine.Phase.phase_successors
    meta_harness.Machine.State.make_state
project-drive_example =
    project-drive started (to_planner ∷ ask ∷ []) (λ e. cc) (refl, (refl, tt)) refl

abbrev delivery : List RunEvent
delivery =
    to_planner
    ∷ event advance_kind (some candidate_ready) none
    ∷ event advance_kind (some candidate_push) none
    ∷ event advance_kind (some publish) none
    ∷ event complete_kind none none
    ∷ []

abbrev delivered : RunMachineState
delivered = state (some publish) completed none

abbrev delivered_outcome : RunOutcome
delivered_outcome = record {
  phase = some publish;
  disposition = completed;
  status = status_published;
  resumable = false;
  resume_eligible = false;
}

published-handed_over_example :
    (xs : List RunPhase) × (handed_over [] delivery
      ≡ publish ∷ candidate_push ∷ candidate_ready ∷ xs)
unfolding drive transition run_reason project_run_outcome completed_status
    meta_harness.Machine.Phase.phase_in meta_harness.Machine.Phase.phase_successors
    meta_harness.Machine.State.make_state meta_harness.Machine.Phase.completable_phases
published-handed_over_example =
    published-handed_over started delivered delivery delivered_outcome refl
      (refl, (refl, (refl, (refl, (refl, tt))))) refl refl refl

abbrev stopped : RunMachineState
stopped = state (some planner) failed (some "GIT_FAILURE")

abbrev claim : RunEvent
claim = event resume_kind none none

drive-completed_example :
    (es : List RunEvent) × NoResume es
    × (drive
          (state (some planner) wait_human (some "SPEC_DECISION_REQUIRED"))
          (wake wait_human ++ es)
        ≡ ok (state (some publish) completed none))
drive-completed_example =
    drive-completed (state (some planner) wait_human (some "SPEC_DECISION_REQUIRED")) planner refl
      (λ e. cc)
