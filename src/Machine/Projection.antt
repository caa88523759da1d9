-- ===== src/Machine/Projection.antt =====
-- models.py: the status that is derived from a machine state, the read bridge for statuses that
-- earlier runs recorded, and the assembly of a machine state from recorded facts.
use meta_harness.Common.{
  String, Bool, true, false, Option, none, some, List, [], ◌∷◌, ◌==◌, if◌then◌else◌,
}
use meta_harness.Common.Outcome.{Outcome, ok, raised, ◌>>=◌}
use meta_harness.Common.Text.{casefold}
use meta_harness.Json.{Value, null, str, Fields, truthy, get, get_in}
use meta_harness.Machine.Phase.{RunPhase, planner, publish}
use meta_harness.Machine.State.{
  RunDisposition, running, wait_external, wait_human, completed, failed, MachineError,
  unknown_status, human_reserved, RunMachineState, make_state, coerce_phase, coerce_disposition,
}
use meta_harness.Machine.Transition.{is_spec_decision}

pub data RunStatus : Type 0 where
  status_running status_waiting_human status_waiting_external status_committed : RunStatus
  status_published status_partial status_failed : RunStatus

unfoldable pub status_value : RunStatus → String
status_value status_running = "running"
status_value status_waiting_human = "waiting_human"
status_value status_waiting_external = "waiting_external"
status_value status_committed = "committed"
status_value status_published = "published"
status_value status_partial = "partial"
status_value status_failed = "failed"

-- `_COMPLETED_STATUS.get(phase, RunStatus.COMMITTED)`
unfoldable pub completed_status : Option RunPhase → RunStatus
completed_status (some publish) = status_published
completed_status (some planner) = status_partial
completed_status _ = status_committed

pub record RunOutcome : Type 0 where
  pub phase : Option RunPhase
  pub disposition : RunDisposition
  pub status : RunStatus
  pub resumable : Bool
  pub resume_eligible : Bool

outcome_with : RunMachineState → RunStatus → Bool → Bool → Outcome MachineError RunOutcome
outcome_with m s r e = ok (record {
  phase = m.phase;
  disposition = m.disposition;
  status = s;
  resumable = r;
  resume_eligible = e;
})

project : RunDisposition → RunMachineState → Outcome MachineError RunOutcome
unfolding outcome_with completed_status
project running m = outcome_with m status_running false false
project completed m = outcome_with m (completed_status m.phase) false false
project failed m = outcome_with m status_failed false true
project wait_external m = outcome_with m status_waiting_external true true
project wait_human m =
    if is_spec_decision m.reason
    then outcome_with m status_waiting_human false false
    else raised human_reserved

unfoldable pub project_run_outcome : RunMachineState → Outcome MachineError RunOutcome
unfolding project
project_run_outcome m = project m.disposition m

-- `_STATUS_DISPOSITIONS`
unfoldable pub status_dispositions : List (String × RunDisposition)
status_dispositions =
    ("running", running)
    ∷ ("waiting_human", wait_human)
    ∷ ("waiting_external", wait_external)
    ∷ ("published", completed)
    ∷ ("committed", completed)
    ∷ ("partial", completed)
    ∷ ("failed", failed)
    ∷ ("created", running)
    ∷ ("planning", running)
    ∷ ("awaiting_plan_approval", running)
    ∷ ("preparing", running)
    ∷ ("implementing", running)
    ∷ ("validating", running)
    ∷ ("revising", running)
    ∷ ("approved", running)
    ∷ ("publishing", running)
    ∷ ("paused", wait_external)
    ∷ ("waiting_remote", wait_external)
    ∷ ("plan_rejected", failed)
    ∷ ("interrupted", failed)
    ∷ []

find_status : List (String × RunDisposition) → String → Outcome MachineError RunDisposition
find_status [] s = raised unknown_status
find_status ((k, d) ∷ rows) s = if k == s then ok d else find_status rows s

unfoldable pub disposition_for_status : Value → Outcome MachineError RunDisposition
unfolding find_status status_dispositions
disposition_for_status (str s) = find_status status_dispositions (casefold s)
disposition_for_status _ = raised unknown_status

-- The recorded posture, or the one that a recorded status stands for.
unfoldable pub recorded_posture : Value → Value → Outcome MachineError RunDisposition
recorded_posture null null = ok running
recorded_posture null status = disposition_for_status status
recorded_posture d status = coerce_disposition d

abbrev text_or_none : Value → Option String
text_or_none (str String.[]) = none
text_or_none (str s) = some s
text_or_none _ = none

-- `reason or failure_reason`, kept if it is a text that is not empty
unfoldable pub resolved_reason : Value → Value → Option String
resolved_reason r f = text_or_none (if truthy r then r else f)

-- `assemble_run_state(phase, disposition=..., status=..., reason=..., failure_reason=...)`
unfoldable pub assemble_run_state :
    Value → Value → Value → Value → Value → Outcome MachineError RunMachineState
unfolding recorded_posture resolved_reason
assemble_run_state p d s r f = do
  posture ← recorded_posture d s
  phase ← coerce_phase p
  make_state phase posture (resolved_reason r f)

unfoldable pub status_of_run_state : Fields → Outcome MachineError RunStatus
status_of_run_state state = do
  machine ←
      assemble_run_state (get state "phase") (get state "disposition") (get state "status")
        (get state "reason") (get_in (get state "failure") "reason")
  outcome ← project_run_outcome machine
  ok outcome.status
