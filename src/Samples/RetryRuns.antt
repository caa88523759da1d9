-- ===== src/Samples/RetryRuns.antt =====
-- A failed step that is rolled back and retried.
use meta_harness.Common.{String, refl, true, false, none, some, [], ◌∷◌}
use meta_harness.Common.Outcome.{ok}
use meta_harness.Common.Effect.{Effect}
use meta_harness.Policy.Table.{fixable}
use meta_harness.Policy.Boundaries.{decision}
use meta_harness.Coordinator.Admission.{RecoveryAdmission, admission}
use meta_harness.Coordinator.Worker.{StepFailure, StepRetry, admit_step_retry, retry_request}
use meta_harness.Coordinator.Answered.{IsAnswered, admit_step_retry-IsAnswered}
use meta_harness.Samples.AttemptRuns.{Copy, home, one_file, edited, whole_attempt}
use meta_harness.Samples.CoordinatorRuns.{disk, whole_coordinator}

abbrev retry : StepRetry
retry = record {
  retry_key = "step:S01";
  branch_ref = "refs/heads/run";
  base_sha = "c0";
  ownership_before = home;
  step_id = "S01";
  paths = "f" ∷ [];
  artifact_dir = "S01";
  cycle = 1;
  retry_budget = 3;
}

abbrev failure : StepFailure
failure = record {
  reason = "CHECK_FAILED";
  step_id = "S01";
  profile_id = none;
  tree_before = some "t0";
  tree_after = some "t1";
  index_tree_after = some "t1";
  status_before = some [];
  step_dir = none;
}

abbrev restored : StepFailure
restored = record failure { tree_after = some "t0"; index_tree_after = some "t0" }

abbrev tick : Copy → String × Copy
tick w = ("t1", w)

abbrev archive : String → Effect String Copy (Unit {0})
archive dir w = (ok tt, w)

abbrev granted : RecoveryAdmission
granted = admission (retry_request retry restored "t0") 1 true (decision fixable false true) 2 false

admit_step_retry-IsAnswered_example :
    IsAnswered one_file tick archive retry failure
      (disk 1)
      (some granted)
      (admit_step_retry one_file tick archive retry failure (disk 1, edited)).1
unfolding whole_attempt whole_coordinator admit_step_retry retry_request
    meta_harness.Coordinator.Worker.classified_retry meta_harness.Coordinator.Worker.guarded_retry
    meta_harness.Coordinator.Worker.with_trees meta_harness.Coordinator.Worker.with_status
    meta_harness.Coordinator.Worker.with_listed meta_harness.Coordinator.Worker.roll_back
    meta_harness.Coordinator.Worker.rolled_back meta_harness.Coordinator.Worker.after_rollback
    meta_harness.Coordinator.Worker.admitted_or meta_harness.Coordinator.Worker.granted
    meta_harness.Coordinator.Worker.safe_status meta_harness.Coordinator.Worker.safely
    meta_harness.Coordinator.Worker.caught meta_harness.Coordinator.Worker.step_attempt
    meta_harness.Coordinator.Exit.normalize_exit_reason meta_harness.Coordinator.Exit.failure_code
admit_step_retry-IsAnswered_example =
    admit_step_retry-IsAnswered one_file tick archive retry failure (disk 1, edited) restored
      (some granted) (admit_step_retry one_file tick archive retry failure (disk 1, edited)).1 refl
