-- ===== src/Steps/Authority.antt =====
-- orchestration/step_execution.py: `EffectiveStepAuthority`, the interface of an acceptance, and what it
-- asks of the gate and writes. The functions of gitops.py, the reading of the worker's report and the
-- patch file are the fields of the interface.
use meta_harness.Common.{String, Bool, true, Option, none, some, List, [], ◌∷◌, ◌++◌}
use meta_harness.Common.Outcome.{Outcome}
use meta_harness.Common.Effect.{Effect}
use meta_harness.Common.Names.{sorted_set}
use meta_harness.Json.{
  pos, Value, null, str, int, arr, Fields, end, field, nil, opt_str, text_items,
}
use meta_harness.Attempt.Audit.{GitFailure}
use meta_harness.Attempt.Transaction.{Git}
use meta_harness.Contract.Step.{ImplementationStep, ExecutionClass, mechanical, reasoning, agentic}
use meta_harness.Commit.Safety.{DeferredVerification, CommitError, GateRequest, StepVerification}
use meta_harness.Steps.Attempt.{StepExecutionOutcome}

-- `mutable_paths`
unfoldable pub mutable_paths : ImplementationStep → List String
unfolding sorted_set
mutable_paths step = sorted_set (step.write_set ++ (step.create_set ++ step.delete_set))

-- Without `effective_contract`, of which only the digest is used.
pub record EffectiveStepAuthority : Type 0 where
  pub step_id : String
  pub title : String
  pub execution_class : String
  pub depends_on : Option String
  pub effective_step : ImplementationStep
  pub approved_contract_sha256 : String
  pub effective_contract_sha256 : String

unfoldable pub class_value : ExecutionClass → String
class_value mechanical = "mechanical"
class_value reasoning = "reasoning"
class_value agentic = "agentic"

-- `approved_step_authority`, from the digest of the approved contract
unfoldable pub approved_step_authority : ImplementationStep → String → EffectiveStepAuthority
unfolding class_value
approved_step_authority step digest = record {
  step_id = step.id;
  title = step.title;
  execution_class = class_value step.execution_class;
  depends_on = step.depends_on;
  effective_step = step;
  approved_contract_sha256 = digest;
  effective_contract_sha256 = digest;
}

-- `identity_payload`
unfoldable pub identity_payload : EffectiveStepAuthority → Fields
identity_payload a = field "schema_version" (int (pos 1)) (
    field "step_id" (str a.step_id) (
      field "title" (str a.title) (
        field "execution_class" (str a.execution_class) (
          field "depends_on" (opt_str a.depends_on) (
            field "read_set" (arr (text_items a.effective_step.read_set)) (
              field "write_set" (arr (text_items a.effective_step.write_set)) (
                field "create_set" (arr (text_items a.effective_step.create_set)) (
                  field "delete_set" (arr (text_items a.effective_step.delete_set)) (
                    field "approved_contract_sha256" (str a.approved_contract_sha256) (
                      field "effective_contract_sha256" (str a.effective_contract_sha256)
                        end))))))))))

-- What an acceptance calls, over a world of a repository and the rest of the run's directory; `fits` says
-- that a document is within the 16 MiB that are read of a JSON file.
pub record AcceptHost (W : Type 0) : Type 0 where
  pub git : Git W
  pub resolve_tree : String → W → Outcome GitFailure String
  pub commit_parents : String → W → Outcome GitFailure (List String)
  pub write_diff : Effect String W (Unit {0})
  pub commit_step_tree : String → String → String → String → Effect GitFailure W String
  pub step_verification :
      StepExecutionOutcome → String → List String → Outcome CommitError StepVerification
  pub canonical_sha256 : Fields → String
  pub fits : Value → Bool
  pub now : W → String

-- The arguments.
pub record Acceptance : Type 0 where
  pub authority : EffectiveStepAuthority
  pub outcome : StepExecutionOutcome
  pub parent_sha : String
  pub future_step_ids : List String
  pub verification : Option StepVerification

abbrev pub first_of : List String → Option String
first_of [] = none
first_of (x ∷ xs) = some x

abbrev pub reason_of : Option DeferredVerification → Option String
reason_of none = none
reason_of (some d) = some d.reason

abbrev pub dependents_of : Option DeferredVerification → List String
dependents_of none = []
dependents_of (some d) = d.dependent_step_ids

abbrev pub command_of : Option DeferredVerification → Option String
command_of none = none
command_of (some d) = some d.command_or_contract

-- The arguments of the commit gate.
unfoldable pub gate_request : Acceptance → StepVerification → GateRequest
unfolding mutable_paths
gate_request q v = record {
  tree_sha = q.outcome.tree_after;
  parent_sha = q.parent_sha;
  mutable_scope = mutable_paths q.authority.effective_step ++ q.outcome.out_of_scope_paths;
  verification_status = v.status;
  deferred_reason = reason_of v.deferred;
  dependent_step_ids = dependents_of v.deferred;
  deferred_command_or_contract = command_of v.deferred;
  security_passed = true;
}

-- The record of a deferred verification that leaves the tree as it is.
unfoldable pub unchanged_record : Acceptance → DeferredVerification → Fields
unchanged_record q d = field "step_id" (str q.authority.step_id) (
    field "verification_status" (str "deferred") (
      field "tree_before" (str q.outcome.tree_before) (
        field "tree_after" (str q.outcome.tree_after) (
          field "changed_paths" (arr nil) (
            field "deferred_reason" (str d.reason) (
              field "dependent_step_ids" (arr (text_items d.dependent_step_ids)) (
                field "deferred_verify_command_or_contract" (str d.command_or_contract)
                  (field "commit_sha" null end))))))))

unfoldable pub expected_fields : Acceptance → List String → Fields → Fields
expected_fields q parents rest = field "expected_head_sha" (str q.parent_sha) (
    field "expected_parent_sha" (opt_str (first_of parents)) (
      field "expected_tree_sha" (str q.outcome.tree_after)
        (field "next_step_id" (opt_str (first_of q.future_step_ids)) rest)))
