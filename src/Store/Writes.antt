-- ===== src/Store/Writes.antt =====
-- state.py: the operations that write `state.json`.
use meta_harness.Common.{ℕ, String, Bool, true, false, not, ◌&&◌, Option, none, some, nat_eq}
use meta_harness.Common.Outcome.{Outcome, ok, ◌>>=◌, ◌>>◌, refuse_if, map_raised}
use meta_harness.Common.Text.{is_blank}
use meta_harness.Common.Names.{same_text}
use meta_harness.Json.{Value, null, str, obj, Fields, end, field, has_key, put}
use meta_harness.Machine.Phase.{RunPhase, phase_eq}
use meta_harness.Machine.State.{
  RunDisposition, failed, RunMachineState, make_state, RunIdentity, RunEvent,
}
use meta_harness.Machine.Transition.{transition}
use meta_harness.Store.Disk.{
  Disk, StoreError, control_field, reason_empty, detail_type, owns_failure, machine_error, load,
  finish, names_control,
}
use meta_harness.Store.Machine.{
  control_stamp, reporting_stamp, recorded_phase, recorded_machine, resolved_machine, identity_in,
  apply,
}

unfoldable pub same_phase : Option RunPhase → Option RunPhase → Bool
same_phase none none = true
same_phase (some p) (some q) = phase_eq p q
same_phase _ _ = false

abbrev posture_index : RunDisposition → ℕ
posture_index RunDisposition.running = 0
posture_index RunDisposition.wait_external = 1
posture_index RunDisposition.wait_human = 2
posture_index RunDisposition.completed = 3
posture_index RunDisposition.failed = 4

unfoldable pub same_posture : RunDisposition → RunDisposition → Bool
same_posture a b = nat_eq (posture_index a) (posture_index b)

-- `==` of two identities: the fields one by one
unfoldable pub same_identity : RunIdentity → RunIdentity → Bool
unfolding same_text same_phase
same_identity a b =
    same_phase a.phase b.phase
    && (same_posture a.disposition b.disposition
        && (same_text a.reason b.reason
            && (same_text a.updated_at b.updated_at
                && same_text a.checkpoint_sha256 b.checkpoint_sha256)))

-- `expected is not None and self._identity(...) != expected`
unfoldable pub moved_on :
    Fields
    → RunMachineState
    → Outcome StoreError RunIdentity
    → Option RunIdentity
    → Outcome StoreError Bool
moved_on state m seen none = ok false
moved_on state m seen (some e) = do i ← seen; ok (not (same_identity i e))

abbrev pub unless : Bool → Outcome StoreError Fields → Outcome StoreError (Option Fields)
unless true work = ok none
unless false work = work >>= λ state. ok (some state)

-- `update_metadata(expected=..., **fields)`
unfoldable pub update_metadata :
    String → Option RunIdentity → Fields → Disk → Outcome StoreError (Option Fields) × Disk
unfolding moved_on
update_metadata now expected fields disk = finish disk (do
  refuse_if (names_control fields) control_field
  state ← load disk.state_file
  stamp ← control_stamp disk
  m ← recorded_machine state stamp
  gone ← moved_on state m (identity_in state m stamp) expected
  unless gone (apply state m fields now))

-- `set_run_state(machine, **fields)`
unfoldable pub set_run_state :
    String → RunMachineState → Fields → Disk → Outcome StoreError (Option Fields) × Disk
set_run_state now machine fields disk = finish disk (do
  refuse_if (names_control fields) control_field
  state ← load disk.state_file
  stamp ← control_stamp disk
  m ← resolved_machine state stamp machine
  written ← apply state m fields now
  ok (some written))

-- `transition_run(event, expected=..., **fields)`
unfoldable pub transition_run :
    String → RunEvent → RunIdentity → Fields → Disk → Outcome StoreError (Option Fields) × Disk
transition_run now event expected fields disk = finish disk (do
  refuse_if (names_control fields) control_field
  state ← load disk.state_file
  stamp ← control_stamp disk
  m ← recorded_machine state stamp
  i ← identity_in state m stamp
  unless (not (same_identity i expected))
      (map_raised machine_error (transition m event) >>= λ n. apply state n fields now))

abbrev pub is_detail : Value → Bool
is_detail null = true
is_detail (str s) = true
is_detail (obj fs) = true
is_detail _ = false

-- `{"reason": reason}`, with the detail if there is one
unfoldable pub failure_payload : String → Value → Fields
failure_payload reason null = field "reason" (str reason) end
failure_payload reason detail = field "reason" (str reason) (field "detail" detail end)

-- `record_failure(reason, detail, **fields)`
unfoldable pub record_failure :
    String → String → Value → Fields → Disk → Outcome StoreError (Option Fields) × Disk
record_failure now reason detail fields disk = finish disk (do
  refuse_if (is_blank reason) reason_empty
  refuse_if (not (is_detail detail)) detail_type
  refuse_if (names_control fields) control_field
  refuse_if (has_key fields "failure") owns_failure
  state ← load disk.state_file
  m ←
      map_raised machine_error
        (make_state (recorded_phase state (reporting_stamp disk)) failed (some reason))
  written ← apply state m (put fields "failure" (obj (failure_payload reason detail))) now
  ok (some written))
