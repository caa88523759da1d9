-- ===== src/Store/Start.antt =====
-- state.py: `initialize`, the record of a run that has just begun, and what is read of it.
use meta_harness.Common.{
  ℕ, String, ◌≡◌, refl, ap, false, not, Option, none, some, ◌==◌, nat_eq, if◌then◌else◌,
}
use meta_harness.Common.Outcome.{Outcome, ok, ◌>>◌, refuse_if, map_raised}
use meta_harness.Common.Text.{is_blank}
use meta_harness.Json.{
  Value, null, str, bool, int, pos, obj, arr, nil, Fields, end, field, get, get_in, truthy, opt_str,
}
use meta_harness.Machine.Phase.{RunPhase}
use meta_harness.Machine.State.{running, disposition_value}
use meta_harness.Machine.Clean.{none-IsClean}
use meta_harness.Machine.Projection.{resolved_reason, status_value, status_running}
use meta_harness.Checkpoint.{CheckpointStamp}
use meta_harness.Store.Disk.{
  Disk, StoreError, run_id_invalid, pipeline_version_invalid, load, write, finish, machine_error,
}
use meta_harness.Store.ReadBack.{assemble_back}
use meta_harness.Store.Machine.{
  control_stamp, machine_state, recorded_machine, recorded_phase, phase_recorded_in,
}

abbrev empty_dict : Value
empty_dict = obj end

abbrev empty_list : Value
empty_list = arr nil

-- The record from `"usage"` on.
abbrev fresh_usage : Fields
fresh_usage = field "planner" empty_dict (
    field "correction_planner" empty_dict (
      field "implementer" (obj (field "total" empty_dict (field "steps" empty_list end)))
        (field "cycles" empty_list (field "grand_total" empty_dict end))))

-- The fields from `"issue_number"` on.
abbrev fresh_steps : Value → Fields
fresh_steps base_sha = field "issue_number" null (
    field "pull_request_number" null (
      field "approved_tree_sha" null (
        field "commit_sha" null (
          field "publish" empty_dict (
            field "failure" null (
              field "pause_requested" (bool false) (
                field "recovery_counters" empty_dict (
                  field "steps" empty_list (
                    field "accepted_steps" empty_list (
                      field "accepted_commits" empty_list (
                        field "deferred_verifications" empty_list (
                          field "current_step" null (
                            field "expected_head_sha" base_sha (
                              field "expected_parent_sha" base_sha (
                                field "expected_tree_sha" null (
                                  field "next_step_id" null
                                    (field "usage" (obj fresh_usage) end)))))))))))))))))

-- The fields from `"run_options_sha256"` on.
abbrev fresh_work : Value → Fields
fresh_work base_sha = field "run_options_sha256" null (
    field "run_options" empty_dict (
      field "planner" empty_dict (
        field "execution" empty_dict (
          field "plan_identity" null (
            field "agent" empty_dict (
              field "agent_candidate_tree_before" null (
                field "agent_candidate_tree_after" null (
                  field "workspace_setup" empty_list (
                    field "checks" empty_list (
                      field "cycle" (int (pos 1)) (
                        field "cycles" empty_list (
                          field "iteration" (int (pos 1)) (
                            field "current_iteration" (int (pos 1)) (
                              field "completed_iterations" empty_list (
                                field "completion_kind" null (
                                  field "iteration_remaining" empty_list (
                                    field "current_milestone" null (
                                      field "remote_branch" null (
                                        field "remote_sha" null (
                                          field "reviewed_candidate_sha" null
                                            (fresh_steps base_sha)))))))))))))))))))))

-- The state that `initialize` writes, begun at `started`.
unfoldable pub fresh_state :
    String → ℕ → String → Option String → Option String → Option String → Fields
fresh_state run_id version started base_sha branch worktree = field "schema_version" (int (pos 1)) (
    field "pipeline_version" (int (pos version)) (
      field "run_id" (str run_id) (
        field "status" (str (status_value status_running)) (
          field "disposition" (str (disposition_value running)) (
            field "phase" null (
              field "reason" null (
                field "started_at" (str started) (
                  field "updated_at" (str started) (
                    field "base_sha" (opt_str base_sha) (
                      field "branch" (opt_str branch) (
                        field "worktree" (opt_str worktree)
                          (fresh_work (opt_str base_sha)))))))))))))

-- `started_at or _now()`
unfoldable pub started_or : Option String → String → String
started_or none now = now
started_or (some s) now = if s == "" then now else s

unfoldable pub initialize :
    String
    → String
    → ℕ
    → Option String
    → Option String
    → Option String
    → Option String
    → Disk
    → Outcome StoreError (Option Fields) × Disk
unfolding started_or
initialize now run_id version started_at base_sha branch worktree disk = finish disk (do
  refuse_if (is_blank run_id) run_id_invalid
  refuse_if (not (nat_eq version 2)) pipeline_version_invalid
  ok (some (fresh_state run_id version (started_or started_at now) base_sha branch worktree)))

abbrev pub stamp_phase : Option CheckpointStamp → Option RunPhase
stamp_phase none = none
stamp_phase (some s) = some s.phase

recorded-fresh :
    (run_id : String) (version : ℕ) (started : String) (base_sha branch worktree : Option String)
    (stamp : Option CheckpointStamp)
    → recorded_machine (fresh_state run_id version started base_sha branch worktree) stamp
      ≡ ok (record { phase = stamp_phase stamp; disposition = running; reason = none })
unfolding recorded_machine recorded_phase phase_recorded_in fresh_state get get_in resolved_reason
    truthy
recorded-fresh run_id version started base_sha branch worktree none =
    ap (map_raised machine_error) (
      assemble_back none running (str (status_value status_running)) none null null refl
        none-IsClean)
recorded-fresh run_id version started base_sha branch worktree (some s) =
    ap (map_raised machine_error) (
      assemble_back (some s.phase) running (str (status_value status_running)) none null null refl
        none-IsClean)

-- A run with an id can be initialized whatever its state file held, beside no checkpoint or one of
-- this runtime: the state that is read afterwards is RUNNING without a reason, at the phase of that
-- checkpoint if there is one.
pub machine_state-initialize :
    (now run_id : String) (started_at base_sha branch worktree : Option String) (d : Disk)
    {stamp : Option CheckpointStamp}
    → is_blank run_id ≡ false
    → control_stamp d ≡ ok stamp
    → (st : Fields) × (d' : Disk) × (initialize now run_id 2 started_at base_sha branch worktree d
        ≡ (ok (some st), d'))
      × (machine_state d'
          ≡ ok (record { phase = stamp_phase stamp; disposition = running; reason = none }))
unfolding initialize finish machine_state load write control_stamp
machine_state-initialize now run_id started_at base_sha branch worktree d {stamp = stamp} named
      read =
    let st = fresh_state run_id 2 (started_or started_at now) base_sha branch worktree in
    (
      st,
      write d st,
      rw named refl,
      rw read (recorded-fresh run_id 2 (started_or started_at now) base_sha branch worktree stamp),
    )
