-- ===== src/Samples/CoordinatorRuns.antt =====
-- Runs of the recovery coordinator over a small run directory.
use meta_harness.Common.{
  ℕ, suc, ◌+◌, ◌-◌, ◌≤◌, ◌<◌, String, ◌≡◌, refl, Bool, true, false, Option, none, some, List, [],
  ◌∷◌, is_some,
}
use meta_harness.Common.Outcome.{Outcome, ok, raised}
use meta_harness.Json.{obj, str, int, pos, Fields, end, field, nil}
use meta_harness.Machine.Phase.{candidate_push}
use meta_harness.Machine.State.{wait_external as to_wait_external}
use meta_harness.Machine.Projection.{status_waiting_external}
use meta_harness.Policy.Table.{transient, fixable, terminal}
use meta_harness.Policy.Codes.{canonical_failure_code, lookup}
use meta_harness.Policy.Classify.{class_or_fixable}
use meta_harness.Policy.Boundaries.{decision}
use meta_harness.Checkpoint.{bytes, missing}
use meta_harness.Store.Disk.{Disk}
use meta_harness.Attempt.Recovery.{CandidateState, Candidates}
use meta_harness.Coordinator.Counters.{used}
use meta_harness.Coordinator.Admission.{AdmitRequest, RecoveryAdmission, admission, admit}
use meta_harness.Coordinator.Bounded.{admit_each, capped, admit_each-bounded}
use meta_harness.Coordinator.Setup.{SetupHost, LoopError, workspace_setup_error, prepare_workspace}
use meta_harness.Coordinator.Retries.{prepare_workspace-returns}
use meta_harness.Coordinator.Exit.{
  RecoveryTerminalState, not_terminal, project_exit, terminal_disposition,
}
use meta_harness.Coordinator.Stopping.{is_external, status_of}
use meta_harness.Coordinator.Projected.{project_exit-ends}
use meta_harness.Samples.StoreRuns.{whole_store}

abbrev pub state_with : ℕ → Fields
state_with n = field "status" (str "running") (
    field "disposition" (str "RUNNING") (
      field "phase" (str "worktree_setup") (
        field "updated_at" (str "t0")
          (field "recovery_counters" (obj (field "step:S01" (int (pos n)) end)) end))))

abbrev pub disk : ℕ → Disk
disk n = record { state_file = bytes (some (obj (state_with n))) ""; checkpoint = missing }

abbrev request : String → AdmitRequest
request reason = record {
  key = "step:S01";
  reason = reason;
  budget = 3;
  phase = "implementation";
  cycle = some 1;
  step_id = some "S01";
  profile_id = none;
  tree_before = none;
  tree_after = none;
  allowed = none;
  strategy = none;
}

abbrev requests : List (String × AdmitRequest)
requests =
    ("t1", request "CHECK_FAILED")
    ∷ ("t2", request "GIT_FAILURE")
    ∷ ("t3", request "SECRET_LEAK")
    ∷ []

used_test : used "step:S01" (disk 1) ≡ ok 1
unfolding used whole_store meta_harness.Coordinator.Counters.counters_in
    meta_harness.Coordinator.Counters.get_or meta_harness.Coordinator.Counters.counter_value
    meta_harness.Coordinator.Counters.count_of
used_test = refl

admit_each-bounded_example :
    (used "step:S01" (admit_each "step:S01" requests (disk 1)).1
      ≡ ok (1 + (admit_each "step:S01" requests (disk 1)).0))
    × ((admit_each "step:S01" requests (disk 1)).0 ≤ 3 - 1)
unfolding capped
admit_each-bounded_example = admit_each-bounded "step:S01" requests (disk 1) 3 1 refl used_test

abbrev lost : CandidateState
lost = record {
  head = "c0";
  head_ref = none;
  index_tree = "t0";
  candidate_tree = "t0";
  status = [];
  branches = [];
  worktrees = [];
}

abbrev candidates : Candidates ℕ
candidates = record {
  snapshot_candidate_state = λ w. ok lost;
  candidate_state_changed_paths = λ a b w. ok [];
  restore_candidate_state = λ s w. (ok s, w);
}

-- Setup commands that never succeed.
abbrev host : SetupHost ℕ (Unit {0})
host = record {
  candidates = candidates;
  budget_exhausted = λ w. none;
  run_setup = λ w. (raised (workspace_setup_error "CHECK_INFRASTRUCTURE_UNAVAILABLE" nil), suc w);
  tick = λ w. ("t1", w);
  archive_attempt_tree = λ w. (ok tt, w);
}

prepare_workspace-returns_example :
    (r : Outcome LoopError (Unit {0}) × (Disk × ℕ)) × (prepare_workspace host 3 2 (disk 0, 0)
      ≡ some r)
prepare_workspace-returns_example = prepare_workspace-returns host 2 (disk 0, 0)

-- Opens the coordinator, the classification and the store.
unfoldable pub whole_coordinator : Unit {0}
unfolding whole_store admit meta_harness.Coordinator.Admission.settle
    meta_harness.Coordinator.Admission.start meta_harness.Coordinator.Admission.exhaust
    meta_harness.Coordinator.Admission.refused meta_harness.Coordinator.Admission.beyond
    meta_harness.Coordinator.Admission.strategy_in meta_harness.Coordinator.Admission.attempt_of
    meta_harness.Coordinator.Admission.strategy_value used
    meta_harness.Coordinator.Counters.counters_in meta_harness.Coordinator.Counters.get_or
    meta_harness.Coordinator.Counters.counter_value meta_harness.Coordinator.Counters.count_of
    meta_harness.Coordinator.Counters.consume meta_harness.Coordinator.Counters.consumption
    meta_harness.Coordinator.Counters.newest meta_harness.Coordinator.Counters.items_of
    meta_harness.Coordinator.Counters.items_length meta_harness.Coordinator.Counters.drop_items
    meta_harness.Coordinator.Counters.append_item meta_harness.Coordinator.Counters.attempt_record
    meta_harness.Coordinator.Counters.bounded_operation meta_harness.Common.Text.Decimal.two_digits
    meta_harness.Common.Text.Decimal.decimal meta_harness.Common.Text.Decimal.digits
    meta_harness.Common.Text.Decimal.digit meta_harness.Common.Text.Decimal.text_length
    meta_harness.Policy.Classify.classify_failure meta_harness.Policy.Classify.make_decision
    meta_harness.Policy.Classify.rung meta_harness.Policy.Table.recovery_ladder
    meta_harness.Policy.Table.last meta_harness.Policy.Table.reason_of
    meta_harness.Policy.Table.failure_classes canonical_failure_code lookup
    meta_harness.Policy.Codes.stable_code meta_harness.Policy.Codes.failure_code_aliases
    meta_harness.Policy.Codes.exact_row meta_harness.Policy.Codes.pattern_row
    meta_harness.Policy.Codes.matches_key meta_harness.Policy.Codes.drop_last
    meta_harness.Policy.Codes.drop_first meta_harness.Common.Text.has_suffix
    meta_harness.Common.Text.has_prefix meta_harness.Common.Text.before_colon
    meta_harness.Common.Text.upper
whole_coordinator = tt

abbrev waiting : RecoveryTerminalState
waiting = record {
  status = status_waiting_external;
  resumable = true;
  reason = (decision transient true true).reason;
  disposition = to_wait_external;
  phase = some candidate_push;
}

project_exit-ends_example :
    (decision transient true true
      ≡ decision (class_or_fixable (lookup "PUSH_FAILED")) true (is_some (lookup "PUSH_FAILED")))
    × (terminal_disposition (decision transient true true).strategy ≡ some waiting.disposition)
    × (waiting.phase ≡ some candidate_push)
    × (waiting.resumable ≡ is_external waiting.disposition)
    × (waiting.status ≡ status_of waiting.disposition)
unfolding whole_coordinator project_exit meta_harness.Coordinator.Exit.terminal_state_for
    meta_harness.Coordinator.Exit.projected terminal_disposition
    meta_harness.Coordinator.Exit.terminal_event meta_harness.Machine.State.wait
    meta_harness.Machine.State.make_event
project_exit-ends_example =
    project_exit-ends "push_failed: timeout" "PUSH_FAILED" candidate_push
      {x = decision transient true true} {t = waiting} refl refl refl
