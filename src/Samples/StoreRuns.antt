-- ===== src/Samples/StoreRuns.antt =====
-- Runs of the store over a small run directory.
use meta_harness.Common.{
  String, ◌≡◌, ◌≢◌, refl, Bool, true, false, Option, none, some, ◌==◌, eq_iff, arith, ◌⊎◌,
}
use meta_harness.Common.Outcome.{ok, raised}
use meta_harness.Common.Text.{is_blank, is_space, strip}
use meta_harness.Json.{
  null, str, obj, Fields, end, field, get, get_in, put, update, has_key, truthy, opt_str,
}
use meta_harness.Machine.Phase.{RunPhase, planner, implement_step, phase_of_text}
use meta_harness.Machine.State.{
  wait_external, failed, disposition_value, run_reason, RunMachineState, RunIdentity, RunEvent,
  resume_kind, disposition_of_text, coerce_disposition, coerce_phase, identity_of, make_state,
}
use meta_harness.Machine.Transition.{transition}
use meta_harness.Machine.Projection.{
  RunOutcome, status_value, status_failed, assemble_run_state, project_run_outcome,
}
use meta_harness.Machine.Legal.{Step}
use meta_harness.Checkpoint.{
  missing, bytes, FormatError, undecodable, read_checkpoint_stamp, CheckpointStamp,
}
use meta_harness.Store.Disk.{Disk, failure_contradiction, load, write, finish, names_control}
use meta_harness.Store.Machine.{
  phase_json, control_stamp, machine_state, outcome, identity, recorded_machine, recorded_phase,
  phase_recorded_in, apply, contradicts, identity_in, resolved_machine,
}
use meta_harness.Store.Writes.{
  update_metadata, set_run_state, transition_run, record_failure, same_identity,
}
use meta_harness.Store.Metadata.{machine_state-update_metadata}
use meta_harness.Store.Races.{transition_run_once}
use meta_harness.Store.Transitions.{owned, transition_run-Step}
use meta_harness.Store.Reporting.{record_failure_total, record_failure_padded}

abbrev waiting_state : Fields
waiting_state = field "status" (str "waiting_external") (
    field "disposition" (str "WAIT_EXTERNAL") (
      field "phase" (str "planner")
        (field "reason" (str "GIT_FAILURE") (field "updated_at" (str "t0") end))))

abbrev disk : Disk
disk = record { state_file = bytes (some (obj waiting_state)) ""; checkpoint = missing }

abbrev cleared : Fields
cleared = field "failure" null end

-- Opens the store and all that it calls.
unfoldable pub whole_store : Unit {0}
unfolding is_blank meta_harness.Checkpoint.current_schema
    meta_harness.Checkpoint.read_checkpoint_file meta_harness.Checkpoint.stamp_from_payload is_space
    meta_harness.Common.Text.lstrip meta_harness.Common.Text.rstrip strip
    meta_harness.Common.Text.casefold get_in put update meta_harness.Machine.Phase.phase_value
    meta_harness.Machine.Projection.completed_status
    meta_harness.Machine.Projection.disposition_for_status project_run_outcome
    meta_harness.Machine.Projection.recorded_posture meta_harness.Machine.Projection.resolved_reason
    meta_harness.Machine.Projection.status_dispositions status_value disposition_value identity_of
    meta_harness.Machine.Transition.is_spec_decision write apply contradicts identity_in
    meta_harness.Store.Machine.is_reason meta_harness.Store.Writes.moved_on same_identity
    meta_harness.Store.Writes.same_phase meta_harness.Store.Writes.same_posture
    meta_harness.Common.Names.same_text load get update_metadata has_key finish names_control
    control_stamp read_checkpoint_stamp recorded_machine assemble_run_state coerce_disposition
    disposition_of_text coerce_phase recorded_phase phase_recorded_in phase_of_text make_state
    run_reason truthy transition_run transition set_run_state resolved_machine record_failure
whole_store = tt

abbrev after_metadata : Fields
after_metadata = field "status" (str "waiting_external") (
    field "disposition" (str "WAIT_EXTERNAL") (
      field "phase" (str "planner") (
        field "reason" (str "GIT_FAILURE")
          (field "updated_at" (str "t1") (field "failure" null end)))))

abbrev disk_with : Fields → Disk
disk_with state = record { state_file = bytes (some (obj state)) ""; checkpoint = missing }

machine_state-update_metadata_example :
    (m : RunMachineState) × (o : RunOutcome) × (machine_state disk ≡ ok m)
    × (machine_state (disk_with after_metadata) ≡ ok m)
    × (outcome (disk_with after_metadata) ≡ ok o)
    × (get after_metadata "status" ≡ str (status_value o.status))
unfolding whole_store
machine_state-update_metadata_example =
    machine_state-update_metadata "t1" none cleared disk (disk_with after_metadata)
      {state = waiting_state} {st = after_metadata} (refl, tt) refl tt refl

abbrev stop : RunMachineState
stop = record { phase = none; disposition = failed; reason = some " PUSH_FAILED " }

abbrev named_failure : Fields
named_failure = field "failure" (obj (field "reason" (str "PUSH_FAILED") end)) end

abbrev after_stop : Fields
after_stop = field "status" (str "failed") (
    field "disposition" (str "FAILED") (
      field "phase" (str "planner")
        (field "reason" (str "PUSH_FAILED") (field "updated_at" (str "t1") named_failure))))

abbrev resumed : RunEvent
resumed = record { kind = resume_kind; target = none; posture = none; reason = none }

abbrev observed : RunIdentity
observed = record {
  phase = some planner;
  disposition = wait_external;
  reason = some "GIT_FAILURE";
  updated_at = some "t0";
  checkpoint_sha256 = none;
}

abbrev after_resume : Fields
after_resume = field "status" (str "running") (
    field "disposition" (str "RUNNING") (
      field "phase" (str "planner")
        (field "reason" null (field "updated_at" (str "t1") (field "failure" null end)))))

moved : ◌≢◌ {A = Option String} (some "t0") (some "t1")
moved e = ground (arith, eq_iff "t0" "t1")

transition_run_once_example :
    transition_run "t2" resumed observed cleared (disk_with after_resume)
    ≢ (ok (some after_resume), disk_with after_resume)
unfolding whole_store
transition_run_once_example =
    transition_run_once "t1" "t2" resumed resumed observed cleared cleared disk
      (disk_with after_resume) (disk_with after_resume) after_resume after_resume (refl, tt) moved
      refl

transition_run-Step_example :
    (m n : RunMachineState) × (stamp : Option CheckpointStamp) × (machine_state disk ≡ ok m)
    × (identity disk ≡ ok observed)
    × Step m resumed n
    × (control_stamp disk ≡ ok stamp)
    × (load (disk_with after_resume).state_file ≡ ok after_resume)
    × (get after_resume "disposition" ≡ str (disposition_value n.disposition))
    × (get after_resume "phase" ≡ phase_json n.phase)
    × (get after_resume "reason" ≡ opt_str n.reason)
    × (((n.reason ≡ none) × (has_key cleared "failure" ≡ false))
        ⊎ (machine_state (disk_with after_resume) ≡ ok (record n { phase = owned stamp n.phase })))
unfolding whole_store
transition_run-Step_example =
    transition_run-Step "t1" resumed observed cleared disk (disk_with after_resume)
      {st = after_resume} (refl, tt) refl refl

abbrev corrupt : Disk
corrupt = record { state_file = bytes (some (obj waiting_state)) ""; checkpoint = bytes none "ff" }

record_failure_total_example :
    (st : Fields) × (record_failure "t1" "PUSH_FAILED" null end corrupt
      ≡ (ok (some st), write corrupt st))
    × (get st "disposition" ≡ str (disposition_value failed))
    × (get st "status" ≡ str (status_value status_failed))
    × (get st "reason" ≡ str "PUSH_FAILED")
    × (get_in (get st "failure") "reason" ≡ str "PUSH_FAILED")
unfolding whole_store
record_failure_total_example =
    record_failure_total "t1" "PUSH_FAILED" null end corrupt {state = waiting_state} refl refl refl
      refl refl tt refl

padded : strip " PUSH_FAILED" ≢ " PUSH_FAILED"
unfolding whole_store
padded e = ground (arith, eq_iff "PUSH_FAILED" " PUSH_FAILED")

record_failure_padded_example :
    record_failure "t1" " PUSH_FAILED" null end disk ≡ (raised failure_contradiction, disk)
unfolding whole_store
record_failure_padded_example =
    record_failure_padded "t1" " PUSH_FAILED" null end disk {state = waiting_state} refl refl refl
      refl refl (λ e. padded e)
