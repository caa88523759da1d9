-- ===== src/Store/Machine.antt =====
-- state.py: the canonical reads, and the state that one write applies.
use meta_harness.Common.{
  String, Bool, true, false, not, ◌&&◌, Option, none, some, ◌==◌, if◌then◌else◌,
}
use meta_harness.Common.Outcome.{Outcome, ok, raised, ◌>>=◌, ◌>>◌, refuse_if, map_raised}
use meta_harness.Json.{Value, null, str, Fields, is_null, get, get_in, put, update, opt_str, as_str}
use meta_harness.Machine.Phase.{RunPhase, phase_value, phase_of_text, phase_eq}
use meta_harness.Machine.State.{
  disposition_value, RunMachineState, make_state, RunIdentity, identity_of,
}
use meta_harness.Machine.Projection.{
  RunOutcome, project_run_outcome, status_value, assemble_run_state,
}
use meta_harness.Checkpoint.{FormatError, CheckpointStamp, current_schema, read_checkpoint_stamp}
use meta_harness.Store.Disk.{
  Disk, StoreError, foreign_schema, phase_contradiction, failure_contradiction, checkpoint_format,
  machine_error, load,
}

unfoldable pub check_schema : Option CheckpointStamp → Outcome StoreError (Option CheckpointStamp)
check_schema none = ok none
check_schema (some s) = if current_schema s then ok (some s) else raised foreign_schema

-- `_control_stamp`
unfoldable pub control_stamp : Disk → Outcome StoreError (Option CheckpointStamp)
unfolding check_schema
control_stamp d = do
  stamp ← map_raised checkpoint_format (read_checkpoint_stamp d.checkpoint)
  check_schema stamp

or_no_stamp : Outcome FormatError (Option CheckpointStamp) → Option CheckpointStamp
or_no_stamp (ok s) = s
or_no_stamp (raised e) = none

-- `_reporting_stamp`
unfoldable pub reporting_stamp : Disk → Option CheckpointStamp
unfolding or_no_stamp
reporting_stamp d = or_no_stamp (read_checkpoint_stamp d.checkpoint)

text_phase : Value → Option RunPhase
text_phase (str s) = phase_of_text s
text_phase v = none

-- `_phase_recorded_in`
unfoldable pub phase_recorded_in : Fields → Option RunPhase
unfolding text_phase
phase_recorded_in state = text_phase (get state "phase")

-- `_recorded_phase`
unfoldable pub recorded_phase : Fields → Option CheckpointStamp → Option RunPhase
recorded_phase state (some s) = some s.phase
recorded_phase state none = phase_recorded_in state

abbrev pub phase_json : Option RunPhase → Value
phase_json none = null
phase_json (some p) = str (phase_value p)

-- `_recorded_machine`
unfoldable pub recorded_machine :
    Fields → Option CheckpointStamp → Outcome StoreError RunMachineState
recorded_machine state stamp = map_raised machine_error (
    assemble_run_state (phase_json (recorded_phase state stamp)) (get state "disposition")
      (get state "status") (get state "reason") (get_in (get state "failure") "reason"))

unfoldable pub other_phase : Option RunPhase → RunPhase → Bool
other_phase none q = false
other_phase (some p) q = not (phase_eq p q)

or_recorded : Option RunPhase → Option RunPhase → Option RunPhase
or_recorded (some p) q = some p
or_recorded none q = q

-- `_resolved_machine`
unfoldable pub resolved_machine :
    Fields → Option CheckpointStamp → RunMachineState → Outcome StoreError RunMachineState
unfolding other_phase or_recorded
resolved_machine state (some s) m = do
  refuse_if (other_phase m.phase s.phase) phase_contradiction
  map_raised machine_error (make_state (some s.phase) m.disposition m.reason)
resolved_machine state none m =
    map_raised machine_error
      (make_state (or_recorded m.phase (phase_recorded_in state)) m.disposition m.reason)

stamp_digest : Option CheckpointStamp → Option String
stamp_digest none = none
stamp_digest (some s) = some s.sha256

-- `_identity`
unfoldable pub identity_in :
    Fields → RunMachineState → Option CheckpointStamp → Outcome StoreError RunIdentity
unfolding stamp_digest
identity_in state m stamp =
    map_raised machine_error (identity_of m (as_str (get state "updated_at")) (stamp_digest stamp))

-- `value == reason`, of a recorded value and a reason or `None`
unfoldable pub is_reason : Value → Option String → Bool
is_reason null none = true
is_reason (str s) (some r) = s == r
is_reason v r = false

-- The test of `_apply`: the caller's failure names another reason than the machine's.
unfoldable pub contradicts : Value → Option String → Bool
unfolding is_reason
contradicts failure r =
    let named = get_in failure "reason" in not (is_null named) && not (is_reason named r)

-- `_apply(state, machine, fields)`, at the moment `now`
unfoldable pub apply : Fields → RunMachineState → Fields → String → Outcome StoreError Fields
apply state m fields now = do
  refuse_if (contradicts (get fields "failure") m.reason) failure_contradiction
  outcome ← map_raised machine_error (project_run_outcome m)
  let s = put state "status" (str (status_value outcome.status))
  let d = put s "disposition" (str (disposition_value m.disposition))
  let p = put d "phase" (phase_json m.phase)
  let r = put p "reason" (opt_str m.reason)
  ok (put (update r fields) "updated_at" (str now))

-- `machine_state`
unfoldable pub machine_state : Disk → Outcome StoreError RunMachineState
machine_state d = do
  state ← load d.state_file
  stamp ← control_stamp d
  recorded_machine state stamp

-- `reported_machine_state`
unfoldable pub reported_machine_state : Disk → Outcome StoreError RunMachineState
reported_machine_state d = do state ← load d.state_file; recorded_machine state (reporting_stamp d)

-- `outcome`
unfoldable pub outcome : Disk → Outcome StoreError RunOutcome
outcome d = do m ← machine_state d; map_raised machine_error (project_run_outcome m)

-- `identity`
unfoldable pub identity : Disk → Outcome StoreError RunIdentity
identity d = do
  state ← load d.state_file
  stamp ← control_stamp d
  m ← recorded_machine state stamp
  identity_in state m stamp
