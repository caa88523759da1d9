-- ===== src/Samples/LadderRuns.antt =====
-- A step whose first attempt fails.
use meta_harness.Common.{◌≡◌, refl, true, false, none, some, [], ◌∷◌, ltb, if◌then◌else◌}
use meta_harness.Common.Outcome.{Outcome, ok, raised}
use meta_harness.Common.Effect.{Effect}
use meta_harness.Json.{end}
use meta_harness.Store.Disk.{Disk}
use meta_harness.Policy.Table.{fixable}
use meta_harness.Policy.Boundaries.{decision}
use meta_harness.Coordinator.Admission.{RecoveryAdmission, admission}
use meta_harness.Coordinator.Counters.{used}
use meta_harness.Coordinator.Worker.{StepFailure, retry_request}
use meta_harness.Steps.Attempt.{
  StepExecutionOutcome, StepRaise, WorkerRaise, step_failure, Turn, LadderHost, LadderError,
  StepPlan,
}
use meta_harness.Steps.Rung.{Rung, retry_of}
use meta_harness.Steps.Ladder.{first_rung, round, execute_step_attempts}
use meta_harness.Steps.Ended.{
  execute_step_attempts-returns, further, here, Reserved, Climbs-Reserved,
}
use meta_harness.Samples.AttemptRuns.{Copy, home, one_file, edited, clean, whole_attempt}
use meta_harness.Samples.CoordinatorRuns.{disk, whole_coordinator}

abbrev pub done : StepExecutionOutcome
done = record {
  step_id = "S01";
  profile_id = "a";
  tree_before = "t0";
  tree_after = "t1";
  changed_paths = "f" ∷ [];
  final_report = "";
  deferred_verify = "";
  no_change = false;
  out_of_scope_paths = [];
  status_before = [];
}

abbrev failure : StepFailure
failure = record {
  reason = "CHECK_FAILED";
  step_id = "S01";
  profile_id = none;
  tree_before = some "t0";
  tree_after = some "t1";
  index_tree_after = some "t1";
  status_before = some [];
  step_dir = none;
}

abbrev pub restored : StepFailure
restored = record failure { tree_after = some "t0"; index_tree_after = some "t0" }

abbrev report : StepRaise
report = record { failure = failure; retry_feedback = none; mismatch = none; detail = some "red" }

-- The worker fails at its first attempt.
abbrev work : Turn → Effect WorkerRaise Copy StepExecutionOutcome
work turn w =
    if ltb turn.attempt_number 2 then (raised (step_failure report), edited) else (ok done, edited)

abbrev host : LadderHost Copy
host = record {
  git = one_file;
  tick = λ w. ("t1", w);
  budget_exhausted = λ w. none;
  write_artifact = λ name fields w. (ok tt, w);
  archive_attempt = λ dir w. (ok tt, w);
  run_attempt = work;
  run_per_step_gate = λ paths w. (ok (record { passed = true; feedback = ""; warnings = [] }), w);
  bounded_v2_report = λ s. s;
}

abbrev plan : StepPlan
plan = record {
  step_id = "S01";
  paths = "f" ∷ [];
  authority = end;
  artifact_dir = "S01";
  base_sha = "c0";
  branch_ref = "refs/heads/run";
  retry_key = "step:S01";
  cycle = 1;
  attempts = 3;
}

abbrev granted : RecoveryAdmission
granted =
    admission (retry_request (retry_of plan home 1) restored "t0") 0 true
      (decision fixable false true) 1 false

abbrev second : Rung
second = record {
  active_profile = "a";
  fallbacks = "b" ∷ [];
  attempt_number = 1;
  pending_retry = some granted;
  retry_addendum = some "red";
}

-- The state behind the first round.
abbrev behind : Disk × Copy
behind = (round host plan home (first_rung host plan home "a" ("b" ∷ [])) (disk 0, clean)).1

execute_step_attempts-returns_example :
    (r : Outcome LadderError StepExecutionOutcome × (Disk × Copy)) × (execute_step_attempts host
        plan home 3 "a"
        ("b" ∷ [])
        (disk 0, clean)
      ≡ some r)
execute_step_attempts-returns_example =
    execute_step_attempts-returns host plan home "a" ("b" ∷ []) (disk 0, clean)

Climbs-Reserved_example : Reserved host plan home second behind
unfolding whole_attempt whole_coordinator first_rung round retry_of retry_request used
    meta_harness.Coordinator.Counters.counters_in meta_harness.Coordinator.Counters.get_or
    meta_harness.Coordinator.Counters.counter_value meta_harness.Coordinator.Counters.count_of
    meta_harness.Coordinator.Exit.normalize_exit_reason
    meta_harness.Coordinator.Worker.admit_step_retry
Climbs-Reserved_example =
    Climbs-Reserved host plan home "a" ("b" ∷ []) (disk 0, clean) {st = second} {s' = behind} refl
      (further here refl)
