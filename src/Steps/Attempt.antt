-- ===== src/Steps/Attempt.antt =====
-- orchestration/step_execution.py: one worker attempt of a step inside the `try` of
-- `_execute_step_attempts`, with the fast gate behind it. The trace is left out. The worker, the gate,
-- the artifacts of a step's directory and the clock are the fields of an interface.

use meta_harness.Common.{ℕ, String, Bool, Option, none, some, List, [], ◌∷◌, if◌then◌else◌}
use meta_harness.Common.Outcome.{Outcome, ok, raised}
use meta_harness.Common.Effect.{Effect, ◌>>=◌, ◌>>◌, reading, giving, on_first, on_second}
use meta_harness.Common.Names.{from_keys, texts_eq}
use meta_harness.Json.{
  Value, str, obj, arr, Fields, end, field, Items, nil, cons, get, truthy, text_items,
}
use meta_harness.Store.Disk.{Disk, StoreError, load}
use meta_harness.Store.Writes.{update_metadata}
use meta_harness.Attempt.Transaction.{Git}
use meta_harness.Coordinator.Counters.{CoordinatorError}
use meta_harness.Coordinator.Exit.{ExitError}
use meta_harness.Coordinator.Worker.{StepFailure, RetryError}
use meta_harness.Policy.Codes.{PolicyError}

-- The usage of the worker's tokens is left out.
pub record StepExecutionOutcome : Type 0 where
  pub step_id : String
  pub profile_id : String
  pub tree_before : String
  pub tree_after : String
  pub changed_paths : List String
  pub final_report : String
  pub deferred_verify : String
  pub no_change : Bool
  pub out_of_scope_paths : List String
  pub status_before : List String

-- A raised `StepExecutionFailure`, with the texts that a retry is told.
pub record StepRaise : Type 0 where
  pub failure : StepFailure
  pub retry_feedback : Option String
  pub mismatch : Option String
  pub detail : Option String

pub data WorkerRaise : Type 0 where
  step_failure : StepRaise → WorkerRaise
  other_exception : String → WorkerRaise

-- `per_step`
pub record GateVerdict : Type 0 where
  pub passed : Bool
  pub feedback : String
  pub warnings : List String

-- What differs between the calls of one step's worker.
pub record Turn : Type 0 where
  pub profile_id : String
  pub attempt_number : ℕ
  pub retry_addendum : Option String

-- What the ladder calls, over a world of a repository, its worktree and the run's directory.
pub record LadderHost (W : Type 0) : Type 0 where
  pub git : Git W
  pub tick : W → String × W
  pub budget_exhausted : W → Option String
  pub write_artifact : String → Fields → Effect String W (Unit {0})
  pub archive_attempt : String → Effect String W (Unit {0})
  pub run_attempt : Turn → Effect WorkerRaise W StepExecutionOutcome
  pub run_per_step_gate : List String → Effect String W GateVerdict
  pub bounded_v2_report : String → String

-- What leaves the ladder.
pub data LadderError : Type 0 where
  over_budget : String → LadderError
  step_failed : StepFailure → LadderError
  escaped : String → LadderError
  warnings_malformed : LadderError
  not_stored : StoreError → LadderError
  unnamed : ExitError → LadderError
  unclassified : PolicyError → LadderError
  not_counted : CoordinatorError → LadderError
  not_retried : RetryError → LadderError

-- `[item for item in ... if isinstance(item, str)]`
unfoldable pub only_texts : Items → List String
only_texts nil = []
only_texts (cons (str s) vs) = s ∷ only_texts vs
only_texts (cons v vs) = only_texts vs

unfoldable pub keys_of : Fields → List String
keys_of end = []
keys_of (field k v fs) = k ∷ keys_of fs

unfoldable pub characters : String → List String
characters String.[] = []
characters (String.◌∷◌ c s) = String.◌∷◌ c String.[] ∷ characters s

-- The texts among what iterating over `value or []` gives.
unfoldable pub existing_warnings : Value → Outcome LadderError (List String)
unfolding only_texts keys_of characters truthy
existing_warnings (arr vs) = ok (only_texts vs)
existing_warnings (obj fs) = ok (keys_of fs)
existing_warnings (str s) = ok (characters s)
existing_warnings v = if truthy v then raised warnings_malformed else ok []

abbrev pub warnings_field : List String → Fields
warnings_field ws = field "check_warnings" (arr (text_items ws)) end

-- The arguments of `_execute_step_attempts` that no call changes; `authority` is the payload of the
-- advisory copy, `step_id` and `paths` are those of the step.
pub record StepPlan : Type 0 where
  pub step_id : String
  pub paths : List String
  pub authority : Fields
  pub artifact_dir : String
  pub base_sha : String
  pub branch_ref : String
  pub retry_key : String
  pub cycle : ℕ
  pub attempts : ℕ

-- The failure that stands for a red fast gate.
unfoldable pub gate_regression : String → String → StepExecutionOutcome → GateVerdict → StepRaise
gate_regression step_id profile o v = record {
  failure = record {
    reason = "PER_STEP_GATE_REGRESSION";
    step_id = step_id;
    profile_id = some profile;
    tree_before = some o.tree_before;
    tree_after = some o.tree_after;
    index_tree_after = none;
    status_before = some o.status_before;
    step_dir = none;
  };
  retry_feedback = some v.feedback;
  mismatch = none;
  detail = some v.feedback;
}

-- `except StepExecutionFailure`, around the worker's call
unfoldable pub worker_result :
    {W : Type 0}
    → Outcome WorkerRaise StepExecutionOutcome × W
    → Outcome LadderError (Outcome StepRaise StepExecutionOutcome) × W
worker_result (ok o, w) = (ok (ok o), w)
worker_result (raised (step_failure f), w) = (ok (raised f), w)
worker_result (raised (other_exception e), w) = (raised (escaped e), w)

module _ {W : Type 0} (host : LadderHost W) where
  -- `_now()`
  unfoldable pub now_then :
      {A : Type 0} → (String → Effect LadderError (Disk × W) A) → Effect LadderError (Disk × W) A
  now_then f (d, w) = f (host.tick w).0 (d, (host.tick w).1)

  unfoldable pub store_fields : Fields → Effect LadderError (Disk × W) (Unit {0})
  unfolding now_then
  store_fields fields =
      now_then
        (λ now. do written ← on_first not_stored (update_metadata now none fields); giving (ok tt))

  unfoldable pub keep_warnings :
      List String → List String → Effect LadderError (Disk × W) (Unit {0})
  unfolding store_fields
  keep_warnings existing merged =
      if texts_eq merged existing then giving (ok tt) else store_fields (warnings_field merged)

  -- `record_step_warnings`
  unfoldable pub record_step_warnings : List String → Effect LadderError (Disk × W) (Unit {0})
  unfolding keep_warnings existing_warnings
  record_step_warnings warnings = do
    state ← on_first not_stored (reading (λ d. load d.state_file))
    existing ← giving (existing_warnings (get state "check_warnings"))
    keep_warnings existing (from_keys (from_keys [] existing) warnings)

  unfoldable pub note_warnings : List String → Effect LadderError (Disk × W) (Unit {0})
  unfolding record_step_warnings
  note_warnings [] = giving (ok tt)
  note_warnings (x ∷ xs) = record_step_warnings (x ∷ xs)

  -- The fast gate of an outcome.
  unfoldable pub gated :
      String
      → String
      → Outcome StepRaise StepExecutionOutcome
      → Effect LadderError (Disk × W) (Outcome StepRaise StepExecutionOutcome)
  unfolding gate_regression note_warnings
  gated step_id profile (raised f) = giving (ok (raised f))
  gated step_id profile (ok o) = do
    verdict ← on_second escaped (host.run_per_step_gate o.changed_paths)
    if verdict.passed
        then (do note_warnings verdict.warnings; giving (ok (ok o)))
        else giving (ok (raised (gate_regression step_id profile o verdict)))

  -- The body of the `try`.
  unfoldable pub try_attempt :
      StepPlan → Turn → Effect LadderError (Disk × W) (Outcome StepRaise StepExecutionOutcome)
  unfolding gated worker_result
  try_attempt plan turn = do
    on_second escaped (host.write_artifact "step_authority.json" plan.authority)
    result ← on_second (λ e. e) (λ w. worker_result (host.run_attempt turn w))
    gated plan.step_id turn.profile_id result
