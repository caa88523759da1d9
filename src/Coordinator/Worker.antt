-- ===== src/Coordinator/Worker.antt =====
-- orchestration/recovery.py: `WorkerRecovery.admit_step_retry`. The trace, the texts of details and
-- the feedback of the failure are left out; the archive of the attempt's files is a parameter.
use meta_harness.Common.{
  ℕ, String, true, false, Option, none, some, List, [], ◌∷◌, ◌==◌, if◌then◌else◌,
}
use meta_harness.Common.Outcome.{Outcome, ok, raised, map_raised}
use meta_harness.Common.Effect.{Effect, ◌>>=◌, ◌>>◌, giving, on_first, on_second}
use meta_harness.Json.{str, Fields, end, field}
use meta_harness.Policy.Table.{retry_targeted, terminal}
use meta_harness.Policy.Codes.{PolicyError}
use meta_harness.Policy.Classify.{RecoveryDecision, classify_failure}
use meta_harness.Store.Disk.{Disk}
use meta_harness.Store.Writes.{update_metadata}
use meta_harness.Attempt.Ownership.{GitOwnership}
use meta_harness.Attempt.Audit.{GitFailure, git_error}
use meta_harness.Attempt.Transaction.{
  Git, Violation, violation_code, AttemptError, violation, uncaught, Attempt, AttemptRollback,
  base_or, abort,
}
use meta_harness.Coordinator.Counters.{CoordinatorError, store_error, used}
use meta_harness.Coordinator.Admission.{AdmitRequest, RecoveryAdmission, admit}
use meta_harness.Coordinator.Exit.{ExitError, normalize_exit_reason}

-- The fields of a `StepExecutionFailure` that the method reads or writes.
pub record StepFailure : Type 0 where
  pub reason : String
  pub step_id : String
  pub profile_id : Option String
  pub tree_before : Option String
  pub tree_after : Option String
  pub index_tree_after : Option String
  pub status_before : Option (List String)
  pub step_dir : Option String

-- The other arguments; `paths` are the write, create and delete sets of the step.
pub record StepRetry : Type 0 where
  pub retry_key : String
  pub branch_ref : String
  pub base_sha : String
  pub ownership_before : GitOwnership
  pub step_id : String
  pub paths : List String
  pub artifact_dir : String
  pub cycle : ℕ
  pub retry_budget : ℕ

-- What the method lets through.
pub data RetryError : Type 0 where
  unnamed : ExitError → RetryError
  unclassified : PolicyError → RetryError
  not_counted : CoordinatorError → RetryError
  unread : GitFailure → RetryError
  not_archived : String → RetryError

-- The failure as the method leaves it, and the admission or `None`.
abbrev pub Answer : Type 0
Answer = StepFailure × Option RecoveryAdmission

-- `except GitError: return None`
unfoldable pub safely : {A : Type 0} → Outcome GitFailure A → Outcome GitFailure (Option A)
safely (ok a) = ok (some a)
safely (raised git_error) = ok none
safely (raised e) = raised e

-- `abort`, with its `except AttemptViolation`
unfoldable pub caught :
    {A W : Type 0} → Outcome AttemptError A × W → Outcome GitFailure (Outcome Violation A) × W
caught (ok a, w) = (ok (ok a), w)
caught (raised (violation v), w) = (ok (raised v), w)
caught (raised (uncaught e), w) = (raised e, w)

unfoldable pub retry_request : StepRetry → StepFailure → String → AdmitRequest
retry_request q f before = record {
  key = q.retry_key;
  reason = f.reason;
  budget = q.retry_budget;
  phase = "implementation";
  cycle = some q.cycle;
  step_id = some f.step_id;
  profile_id = f.profile_id;
  tree_before = some before;
  tree_after = some before;
  allowed = some (retry_targeted ∷ []);
  strategy = none;
}

abbrev pub step_fields : String → Fields
step_fields id = field "current_step" (str id) end

-- `a or b`, of an optional text
abbrev pub or_text : Option String → Option String → Option String
or_text none o = o
or_text (some s) o = if s == "" then o else some s

unfoldable pub step_attempt : StepRetry → String → List String → Attempt
step_attempt q before status = record {
  boundary = record { tree = before; status = status; ownership = q.ownership_before };
  branch_ref = q.branch_ref;
  base_sha = base_or (some q.base_sha) q.ownership_before.head;
}

module _ {W : Type 0} (git : Git W) (tick : W → String × W)
    (archive_attempt : String → Effect String W (Unit {0})) where
  -- The inner function `refuse`, with the classification that `stop` makes.
  unfoldable pub refuse :
      StepRetry → StepFailure → String → Option String → Effect RetryError (Disk × W) Answer
  refuse q f code tree = do
    decision ← giving (map_raised unclassified (classify_failure code true))
    giving
        (ok (record f { reason = code; tree_after = tree; step_dir = some q.artifact_dir }, none))

  unfoldable pub safe_candidate_tree : Effect RetryError (Disk × W) (Option String)
  unfolding safely
  safe_candidate_tree = on_second unread (λ w. (safely (git.candidate_tree_sha w), w))

  unfoldable pub safe_status : Effect RetryError (Disk × W) (Option (List String))
  unfolding safely
  safe_status = on_second unread (λ w. (safely (git.status_porcelain w), w))

  -- The part behind an admission.
  unfoldable pub granted :
      StepRetry → StepFailure → RecoveryAdmission → Effect RetryError (Disk × W) Answer
  granted q f a (d, w) =
      (do
        written ←
            on_first (λ e. not_counted (store_error e))
              (update_metadata (tick w).0 none (step_fields q.step_id))
        on_second not_archived (archive_attempt q.artifact_dir)
        giving (ok (f, some a)))
        (d, (tick w).1)

  unfoldable pub admitted_or :
      StepRetry → StepFailure → RecoveryAdmission → Effect RetryError (Disk × W) Answer
  unfolding granted
  admitted_or q f a =
      if a.admitted
      then granted q f a
      else giving (ok (record f { step_dir = some q.artifact_dir }, none))

  -- The part behind an exact rollback.
  unfoldable pub after_rollback :
      StepRetry → StepFailure → String → Effect RetryError (Disk × W) Answer
  unfolding admitted_or retry_request
  after_rollback q f before (d, w) =
      if f.reason == "AGENT_CONTRACT_MISMATCH"
      then (ok (record f { step_dir = some q.artifact_dir }, none), (d, w))
      else if f.reason == "EXTERNAL_AUTH_REQUIRED"
      then (ok (record f { step_dir = some q.artifact_dir }, none), (d, w))
      else (do
        a ← on_first not_counted (admit (tick w).0 (retry_request q f before))
        admitted_or q f a)
          (d, (tick w).1)

  unfoldable pub rolled_back :
      StepRetry
      → StepFailure
      → String
      → Outcome Violation AttemptRollback
      → Effect RetryError (Disk × W) Answer
  unfolding after_rollback safe_candidate_tree refuse
  rolled_back q f before (ok r) =
      after_rollback q (record f { tree_after = some before; index_tree_after = some before })
        before
  rolled_back q f before (raised v) = do
    tree ← safe_candidate_tree
    refuse q f (violation_code v) tree

  -- `transaction.abort(...)` and what follows it.
  unfoldable pub roll_back :
      StepRetry → StepFailure → String → List String → Effect RetryError (Disk × W) Answer
  unfolding rolled_back caught step_attempt
  roll_back q f before status = do
    outcome ← on_second unread (λ w. caught (abort git (step_attempt q before status) q.paths [] w))
    rolled_back q f before outcome

  unfoldable pub with_listed :
      StepRetry → StepFailure → String → Option (List String) → Effect RetryError (Disk × W) Answer
  unfolding roll_back refuse
  with_listed q f before none = refuse q f "RESUME_REQUIRES_OPERATOR" f.tree_after
  with_listed q f before (some status) = roll_back q f before status

  unfoldable pub with_status :
      StepRetry → StepFailure → String → Option (List String) → Effect RetryError (Disk × W) Answer
  unfolding with_listed refuse
  with_status q f before none = refuse q f "RESUME_REQUIRES_OPERATOR" f.tree_after
  with_status q f before (some now) = with_listed q f before f.status_before

  -- The guards of a retry whose first tree is known.
  unfoldable pub with_trees :
      StepRetry → StepFailure → String → Option String → Effect RetryError (Disk × W) Answer
  unfolding with_status safe_status refuse
  with_trees q f before none = refuse q f "RESUME_REQUIRES_OPERATOR" none
  with_trees q f before (some after) = do status ← safe_status; with_status q f before status

  unfoldable pub known_tree : Option String → Effect RetryError (Disk × W) (Option String)
  unfolding safe_candidate_tree
  known_tree none = safe_candidate_tree
  known_tree (some t) = giving (ok (some t))

  unfoldable pub guarded_retry :
      StepRetry → StepFailure → Option String → Effect RetryError (Disk × W) Answer
  unfolding with_trees known_tree refuse
  guarded_retry q f none = do
    tree ← known_tree (or_text f.tree_after none)
    refuse q f "RESUME_REQUIRES_OPERATOR" tree
  guarded_retry q f (some before) = with_trees q f before f.tree_after

  unfoldable pub classified_retry :
      StepRetry → StepFailure → RecoveryDecision → Effect RetryError (Disk × W) Answer
  unfolding guarded_retry
  classified_retry q f decision =
      if terminal decision.strategy then giving (ok (f, none)) else guarded_retry q f f.tree_before

  -- `admit_step_retry`
  unfoldable pub admit_step_retry : StepRetry → StepFailure → Effect RetryError (Disk × W) Answer
  unfolding classified_retry
  admit_step_retry q f = do
    reason ← giving (map_raised unnamed (normalize_exit_reason f.reason))
    counted ← on_first not_counted (λ d. (used q.retry_key d, d))
    decision ← giving (map_raised unclassified (classify_failure reason false))
    classified_retry q (record f { reason = reason }) decision
