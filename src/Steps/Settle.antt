-- ===== src/Steps/Settle.antt =====
-- orchestration/step_execution.py: a step that the run abandons while its independent steps go on, which
-- are `_settle`, `_mark_failed_continue` and the skip in `execute_cycle_step`, and `settled_step_status` of
-- orchestration/shared.py. The trace and the detail of a raised `PipelineFailure` are left out.
use meta_harness.Common.{
  ℕ, String, Bool, true, false, not, ◌&&◌, ◌||◌, Option, none, some, List, [], ◌∷◌, ◌++◌, ◌==◌,
  if◌then◌else◌,
}
use meta_harness.Common.Outcome.{Outcome, ok, raised, ◌>>=◌, ◌>>◌, map_raised}
use meta_harness.Common.Names.{same_text}
use meta_harness.Common.Effect.{Effect}
use meta_harness.Json.{
  pos, Value, null, str, int, obj, arr, Fields, end, field, Items, nil, cons, get, truthy, opt_str,
  text_items,
}
use meta_harness.Policy.Table.{FailureClass, fatal, fallback_executor}
use meta_harness.Policy.Codes.{PolicyError}
use meta_harness.Policy.Classify.{classify_failure}
use meta_harness.Store.Disk.{StoreError}
use meta_harness.Attempt.Audit.{GitFailure}
use meta_harness.Attempt.Transaction.{
  Git, Violation, violation_code, AttemptBoundary, Attempt, base_or,
}
use meta_harness.Usage.Record.{normalize_usage, usage_fields}
use meta_harness.Coordinator.Admission.{strategy_value}
use meta_harness.Coordinator.Worker.{StepFailure}
use meta_harness.Commit.Record.{same_scalar, is_word, hashable, value_in}
use meta_harness.Steps.Finalize.{RunDir, read_json_artifact}

-- What is raised; `pipeline_failure` carries the code of a `PipelineFailure`.
pub data SettleError : Type 0 where
  pipeline_failure : String → SettleError
  git_failed : GitFailure → SettleError
  unclassified : PolicyError → SettleError
  not_stored : StoreError → SettleError
  not_iterable not_hashable : SettleError
  not_settled : String → SettleError

-- `status in {FAILED_CONTINUED, SKIPPED_DEPENDENCY}`
unfoldable pub settled_status : Value → Outcome SettleError (Option String)
settled_status (str s) =
    ok (if s == "FAILED_CONTINUED" || s == "SKIPPED_DEPENDENCY" then some s else none)
settled_status (arr vs) = raised not_hashable
settled_status (obj fs) = raised not_hashable
settled_status v = ok none

-- The status in a record of the step.
unfoldable pub status_in : Value → String → Outcome SettleError (Option String)
unfolding settled_status
status_in (obj d) step_id =
    if is_word step_id (get d "id") then settled_status (get d "status") else ok none
status_in v step_id = ok none

-- `settled_step_status`, of the document in `step.json`
unfoldable pub settled_step_status :
    (Value → Bool) → Value → String → Outcome SettleError (Option String)
unfolding status_in read_json_artifact
settled_step_status readable v step_id = status_in (read_json_artifact readable v) step_id

-- What is iterated in `store.load().get("recovery_attempts") or ()`, up to items that are no mapping.
unfoldable pub recovery_rows : Value → Outcome SettleError Items
unfolding truthy
recovery_rows (arr vs) = ok vs
recovery_rows (obj fs) = ok nil
recovery_rows (str s) = ok nil
recovery_rows v = if truthy v then raised not_iterable else ok nil

-- The strategies of the recoveries of a step in a cycle.
unfoldable pub strategies_of : String → ℕ → Items → List Value
unfolding same_scalar
strategies_of step_id cycle nil = []
strategies_of step_id cycle (cons (obj d) vs) =
    let rest = strategies_of step_id cycle vs in
    if is_word step_id (get d "step_id") && same_scalar (get d "cycle") (int (pos cycle))
    then get d "strategy" ∷ rest
    else rest
strategies_of step_id cycle (cons v vs) = strategies_of step_id cycle vs

-- `list(dict.fromkeys(...))`; `seen` are the keys so far.
unfoldable pub distinct : List Value → List Value → Outcome SettleError (List Value)
unfolding hashable value_in
distinct seen [] = ok []
distinct seen (v ∷ vs) = map_raised (λ e. not_hashable) (hashable v) >> elim (value_in v seen) [
  | true ↦ distinct seen vs
  | false ↦ distinct (v ∷ seen) vs >>= λ rest. ok (v ∷ rest)
]

abbrev pub value_items : List Value → Items
value_items [] = nil
value_items (v ∷ vs) = cons v (value_items vs)

-- `failure.profile_id not in {None, step_profile_ids.get(step.id)}`
abbrev pub fell_back : Option String → Option String → Bool
fell_back none primary = false
fell_back (some p) primary = not (same_text (some p) primary)

-- `bounded_v2_report(str(failure.detail or ""))`
abbrev pub report_of : (String → String) → Option String → String
report_of bounded none = bounded ""
report_of bounded (some s) = bounded s

-- The arguments of `_mark_failed_continue`; `detail` and `usage` are those of the failure.
pub record Abandoned : Type 0 where
  pub step_id : String
  pub primary : Option String
  pub cycle : ℕ
  pub failure : StepFailure
  pub detail : Option String
  pub usage : Value
  pub green : AttemptBoundary
  pub branch_ref : String
  pub parent_sha : String

-- The record of a step that failed.
unfoldable pub continued_fields : (String → String) → Abandoned → List Value → List String → Fields
unfolding normalize_usage usage_fields
continued_fields bounded q strategies changed = field "id" (str q.step_id) (
    field "status" (str "FAILED_CONTINUED") (
      field "reason" (str q.failure.reason) (
        field "detail" (str (report_of bounded q.detail)) (
          field "strategies" (arr (value_items strategies)) (
            field "profile_id" (opt_str q.failure.profile_id) (
              field "changed_paths" (arr (text_items changed)) (
                field "tree_before" (str q.green.tree) (
                  field "tree_after" (str q.green.tree) (
                    field "tree_restored" (str q.green.tree)
                      (field "usage" (obj (usage_fields (normalize_usage q.usage))) end))))))))))

-- The record of a step whose dependency was settled.
unfoldable pub skipped_fields : String → String → Fields
skipped_fields step_id dependency =
    field "id" (str step_id)
      (field "status" (str "SKIPPED_DEPENDENCY") (field "depends_on" (str dependency) end))

abbrev pub settled_fields : Value → Fields
settled_fields rows = field "current_step" null (field "steps" rows end)

abbrev pub is_fatal_class : FailureClass → Bool
is_fatal_class fatal = true
is_fatal_class _ = false

-- The code of the failure that is raised for a violation.
unfoldable pub rollback_code : String → Outcome SettleError String
rollback_code code = do
  decision ← map_raised unclassified (classify_failure code false)
  ok (
      if is_fatal_class decision.failure_class && not (code == "RESUME_REQUIRES_OPERATOR")
      then code
      else "ROLLBACK_FAILED")

unfoldable pub restored_or :
    Outcome Violation (String × List String) → Outcome SettleError (String × List String)
unfolding rollback_code
restored_or (ok frozen) = ok frozen
restored_or (raised v) = do code ← rollback_code (violation_code v); raised (pipeline_failure code)

unfoldable pub green_attempt : Abandoned → Attempt
unfolding base_or
green_attempt q = record {
  boundary = q.green;
  branch_ref = q.branch_ref;
  base_sha = base_or (some q.parent_sha) q.green.ownership.head;
}

abbrev pub fallback_strategies : Bool → List Value
fallback_strategies true = str (strategy_value fallback_executor) ∷ []
fallback_strategies false = []

unfoldable pub strategies_with : Abandoned → Items → List Value
unfolding strategies_of
strategies_with q rows =
    strategies_of q.step_id q.cycle rows
    ++ fallback_strategies (fell_back q.failure.profile_id q.primary)

-- What is called, over the run's directory and a world of the repository. `readable` says that a record is
-- within the 128 KiB that are read of `step.json`; `state_steps` is that of the composition.
pub record SettleHost (W : Type 0) : Type 0 where
  pub git : Git W
  pub now : W → String
  pub archive_attempt : Effect String RunDir (Unit {0})
  pub readable : Value → Bool
  pub state_steps : RunDir → Outcome String Value
  pub bounded_v2_report : String → String
