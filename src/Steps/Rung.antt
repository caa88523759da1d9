-- ===== src/Steps/Rung.antt =====
-- orchestration/step_execution.py: the variables of the loop of `_execute_step_attempts`, and what it
-- writes and asks for.
use meta_harness.Common.{
  ℕ, ◌-◌, String, Bool, not, ◌&&◌, Option, none, some, List, [], ◌==◌, is_some,
}
use meta_harness.Common.Outcome.{Outcome, ok, raised}
use meta_harness.Common.Names.{same_text}
use meta_harness.Common.Text.{cut_text}
use meta_harness.Json.{pos, str, int, arr, Fields, end, field, opt_str, text_items}
use meta_harness.Policy.Table.{fallback_executor}
use meta_harness.Attempt.Ownership.{GitOwnership}
use meta_harness.Coordinator.Admission.{AdmitRequest, RecoveryAdmission}
use meta_harness.Coordinator.Worker.{StepFailure, StepRetry, or_text}
use meta_harness.Steps.Attempt.{StepExecutionOutcome, StepRaise, LadderError, over_budget, StepPlan}

-- The variables of the loop; `fallbacks` is what `fallback_ids` has behind `fallback_index`.
pub record Rung : Type 0 where
  pub active_profile : String
  pub fallbacks : List String
  pub attempt_number : ℕ
  pub pending_retry : Option RecoveryAdmission
  pub retry_addendum : Option String

-- What one round of the loop ends with: its `return` or its `continue`.
pub data Round : Type 0 where
  finished : StepExecutionOutcome → Round
  onward : Rung → Round

abbrev pub list_of : Option (List String) → List String
list_of none = []
list_of (some xs) = xs

-- The payload of `failure.json`.
unfoldable pub failure_fields : StepFailure → Fields
failure_fields f = field "schema_version" (int (pos 1)) (
    field "reason" (str (cut_text 120 f.reason)) (
      field "step_id" (str f.step_id) (
        field "profile_id" (opt_str f.profile_id) (
          field "tree_before" (opt_str f.tree_before) (
            field "tree_after" (opt_str f.tree_after)
              (field "status_before" (arr (text_items (list_of f.status_before))) end))))))

-- The payload of `executor.json`.
unfoldable pub executor_fields : String → Fields
executor_fields profile = field "profile_id" (str profile) (
    field "role" (str "implementer")
      (field "selection_source" (str "frozen execution fallback authority") end))

unfoldable pub retry_of : StepPlan → GitOwnership → ℕ → StepRetry
retry_of plan ownership remaining = record {
  retry_key = plan.retry_key;
  branch_ref = plan.branch_ref;
  base_sha = plan.base_sha;
  ownership_before = ownership;
  step_id = plan.step_id;
  paths = plan.paths;
  artifact_dir = plan.artifact_dir;
  cycle = plan.cycle;
  retry_budget = plan.attempts - 1 - remaining;
}

-- `failure.retry_feedback or failure.mismatch or failure.detail`
abbrev pub feedback_of : StepRaise → Option String
feedback_of r = or_text r.retry_feedback (or_text r.mismatch (or_text r.detail none))

unfoldable pub addendum_after : (String → String) → StepRaise → Option String → Option String
addendum_after bounded r old = elim (feedback_of r) [ none ↦ old | some s ↦ some (bounded s) ]

unfoldable pub fallback_request : StepPlan → StepFailure → Option String → AdmitRequest
fallback_request plan f tree = record {
  key = plan.retry_key;
  reason = f.reason;
  budget = plan.attempts - 1;
  phase = "implementation";
  cycle = some plan.cycle;
  step_id = some plan.step_id;
  profile_id = none;
  tree_before = f.tree_before;
  tree_after = tree;
  allowed = none;
  strategy = some fallback_executor;
}

-- `rolled_back and failure.reason != "AGENT_CONTRACT_MISMATCH"`
unfoldable pub rolled_back : StepFailure → Bool
rolled_back f =
    is_some f.tree_before
    && (same_text f.tree_after f.tree_before && not (f.reason == "AGENT_CONTRACT_MISMATCH"))

abbrev pub guarded : Option String → Outcome LadderError (Unit {0})
guarded none = ok tt
guarded (some reason) = raised (over_budget reason)
