-- ===== src/Steps/Ladder.antt =====
-- orchestration/step_execution.py: `_execute_step_attempts`, the bounded ladder of a step's worker
-- attempts. The trace is left out, with `complete` and `fallback_selected`, which only write it; the
-- trees that they are told are read.
use meta_harness.Common.{
  ℕ, zero, suc, ◌-◌, String, Bool, true, false, not, Option, none, some, List, [], ◌∷◌, ◌==◌, ltb,
  if◌then◌else◌,
}
use meta_harness.Common.Outcome.{Outcome, ok, raised, map_raised}
use meta_harness.Common.Effect.{Effect, ◌>>=◌, ◌>>◌, reading, giving, catching, on_first, on_second}
use meta_harness.Common.Lists.{length, take}
use meta_harness.Policy.Table.{terminal}
use meta_harness.Policy.Classify.{classify_failure}
use meta_harness.Store.Disk.{Disk}
use meta_harness.Attempt.Ownership.{GitOwnership}
use meta_harness.Coordinator.Counters.{used}
use meta_harness.Coordinator.Admission.{RecoveryAdmission, admit}
use meta_harness.Coordinator.Exit.{normalize_exit_reason}
use meta_harness.Coordinator.Worker.{
  StepFailure, or_text, step_fields, safe_candidate_tree, known_tree, admit_step_retry,
}
use meta_harness.Steps.Attempt.{
  StepExecutionOutcome, StepRaise, Turn, LadderHost, LadderError, step_failed, escaped, unnamed,
  unclassified, not_counted, not_retried, StepPlan, now_then, store_fields, try_attempt,
}
use meta_harness.Steps.Rung.{
  Rung, Round, failure_fields, executor_fields, retry_of, addendum_after, fallback_request,
  rolled_back, guarded, finished, onward,
}

module _ {W : Type 0} (host : LadderHost W) (plan : StepPlan) (ownership : GitOwnership) where
  -- `failure.step_dir = artifact_dir; raise`
  unfoldable pub give_up : {A : Type 0} → StepFailure → Effect LadderError (Disk × W) A
  give_up f = giving (raised (step_failed (record f { step_dir = some plan.artifact_dir })))

  -- `safe_candidate_tree(worktree)`
  unfoldable pub candidate_tree : Effect LadderError (Disk × W) (Option String)
  unfolding safe_candidate_tree
  candidate_tree =
      catching not_retried (safe_candidate_tree host.git host.tick host.archive_attempt)

  -- `recovery.complete(pending_retry, ...)`
  unfoldable pub complete_pending :
      Option RecoveryAdmission → StepFailure → Effect LadderError (Disk × W) (Unit {0})
  unfolding known_tree
  complete_pending none f = giving (ok tt)
  complete_pending (some a) f = do
    tree ←
        catching not_retried
          (known_tree host.git host.tick host.archive_attempt (or_text f.tree_after none))
    giving (ok tt)

  -- `retryable`
  unfoldable pub retryable : StepFailure → Effect LadderError (Disk × W) Bool
  unfolding rolled_back
  retryable f =
      if rolled_back f
      then (do
        decision ← giving (map_raised unclassified (classify_failure f.reason false))
        giving (ok (not (terminal decision.strategy))))
      else giving (ok false)

  -- The part behind an admitted fallback.
  unfoldable pub fall_to :
      Rung → StepFailure → String → List String → Effect LadderError (Disk × W) Round
  unfolding candidate_tree store_fields executor_fields
  fall_to st f profile rest = do
    tree ← candidate_tree
    on_second escaped (host.archive_attempt plan.artifact_dir)
    on_second escaped (host.write_artifact "executor.json" (executor_fields profile))
    store_fields host (step_fields plan.step_id)
    giving (
        ok
          (onward (record st { active_profile = profile; fallbacks = rest; pending_retry = none })))

  -- The next fallback, if the step's budget admits it.
  unfoldable pub ask_fallback :
      Rung → StepFailure → String → List String → Effect LadderError (Disk × W) Round
  unfolding candidate_tree now_then fall_to give_up fallback_request
  ask_fallback st f profile rest = do
    tree ← candidate_tree
    admission ←
        now_then host (λ now. on_first not_counted (admit now (fallback_request plan f tree)))
    if admission.admitted then fall_to st f profile rest else give_up f

  unfoldable pub next_rung :
      Rung → StepFailure → Bool → List String → Effect LadderError (Disk × W) Round
  unfolding ask_fallback give_up
  next_rung st f false left = give_up f
  next_rung st f true [] = give_up f
  next_rung st f true (profile ∷ rest) = do
    n ← on_first not_counted (reading (used plan.retry_key))
    if ltb n (plan.attempts - 1) then ask_fallback st f profile rest else give_up f

  -- A failure for which no retry was admitted.
  unfoldable pub unretried : Rung → StepFailure → Effect LadderError (Disk × W) Round
  unfolding next_rung give_up retryable
  unretried st f =
      if f.reason == "EXTERNAL_AUTH_REQUIRED"
      then give_up f
      else (do again ← retryable f; next_rung st f again st.fallbacks)

  unfoldable pub retried_or :
      Rung
      → StepRaise
      → StepFailure
      → Option RecoveryAdmission
      → Effect LadderError (Disk × W) Round
  unfolding unretried addendum_after
  retried_or st r f none = unretried (record st { pending_retry = none }) f
  retried_or st r f (some a) = giving (
      ok (
        onward (record st {
          pending_retry = some a;
          retry_addendum = addendum_after host.bounded_v2_report r st.retry_addendum;
        })))

  -- The body of `except StepExecutionFailure`.
  unfoldable pub after_failure : Rung → StepRaise → Effect LadderError (Disk × W) Round
  unfolding retried_or failure_fields complete_pending retry_of
  after_failure st r = do
    reason ← giving (map_raised unnamed (normalize_exit_reason r.failure.reason))
    let f = record r.failure { reason = reason }
    on_second escaped (host.write_artifact "failure.json" (failure_fields f))
    complete_pending st.pending_retry f
    answer ← catching not_retried (
        admit_step_retry host.git host.tick host.archive_attempt
          (retry_of plan ownership (length st.fallbacks)) f)
    retried_or st r answer.0 answer.1

  unfoldable pub settled :
      Rung → Outcome StepRaise StepExecutionOutcome → Effect LadderError (Disk × W) Round
  unfolding after_failure
  settled st (ok o) = giving (ok (finished o))
  settled st (raised r) = after_failure st r

  abbrev pub turn_of : Rung → Turn
  turn_of st = record {
    profile_id = st.active_profile;
    attempt_number = st.attempt_number;
    retry_addendum = st.retry_addendum;
  }

  -- One round of the loop, whose attempt number is one more than that of the round before.
  unfoldable pub round : Rung → Effect LadderError (Disk × W) Round
  unfolding settled try_attempt
  round st = do
    on_second (λ e. e) (λ w. (guarded (host.budget_exhausted w), w))
    result ← try_attempt host plan (turn_of (record st { attempt_number = suc st.attempt_number }))
    settled (record st { attempt_number = suc st.attempt_number }) result

  abbrev pub again :
      Outcome LadderError Round × (Disk × W)
      → (Rung → Disk × W → Option (Outcome LadderError StepExecutionOutcome × (Disk × W)))
      → Option (Outcome LadderError StepExecutionOutcome × (Disk × W))
  again (raised e, s) rest = some (raised e, s)
  again (ok (finished o), s) rest = some (ok o, s)
  again (ok (onward st), s) rest = rest st s

  -- The loop, with fuel for its rounds: `none` when it runs out.
  unfoldable pub climb :
      ℕ → Rung → Disk × W → Option (Outcome LadderError StepExecutionOutcome × (Disk × W))
  unfolding round
  climb zero st s = none
  climb (suc fuel) st s = again (round st s) (climb fuel)

  unfoldable pub first_rung : String → List String → Rung
  first_rung profile fallbacks = record {
    active_profile = profile;
    fallbacks = take (plan.attempts - 1) fallbacks;
    attempt_number = 0;
    pending_retry = none;
    retry_addendum = none;
  }

  -- `_execute_step_attempts`
  unfoldable pub execute_step_attempts :
      ℕ
      → String
      → List String
      → Disk × W
      → Option (Outcome LadderError StepExecutionOutcome × (Disk × W))
  unfolding climb first_rung
  execute_step_attempts fuel profile fallbacks s = climb fuel (first_rung profile fallbacks) s
