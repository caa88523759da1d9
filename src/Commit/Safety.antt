-- ===== src/Commit/Safety.antt =====
-- commit_gate.py: a verification and its payload, and `commit_safety_gate`. Messages are left out; the
-- paths that a refusal carries are kept. The functions of gitops.py and the security scan are fields of
-- the interface `Git`, and `resolve_tree` is an argument beside it.
use Prim.Native.Char.{code}
use meta_harness.Common.{
  String, Bool, true, false, not, ◌&&◌, ◌||◌, Option, none, some, List, [], ◌∷◌, ◌==◌, nat_eq,
  if◌then◌else◌,
}
use meta_harness.Common.Outcome.{Outcome, ok, raised, ◌>>=◌, ◌>>◌, refuse_if, map_raised}
use meta_harness.Common.Lists.{take}
use meta_harness.Common.Names.{minus, from_keys, is_nil}
use meta_harness.Common.Text.{has_prefix, strip, is_empty, cut_text}
use meta_harness.Json.{
  Value, null, str, obj, arr, Fields, end, field, Items, nil, cons, get, is_null, truthy,
  text_items,
}
use meta_harness.Attempt.Audit.{GitFailure}
use meta_harness.Attempt.Transaction.{Git}

pub record DeferredVerification : Type 0 where
  pub reason : String
  pub dependent_step_ids : List String
  pub command_or_contract : String

-- `security_failures` is always empty.
pub record CommitSafetyResult : Type 0 where
  pub parent_sha : String
  pub tree_sha : String
  pub changed_paths : List String
  pub verification_status : String
  pub deferred : Option DeferredVerification

-- `CommitSafetyError`, a constructor for each place, and an exception of Git that passes through.
pub data CommitError : Type 0 where
  not_verified security_not_passed head_changed tree_differs worktree_dirty : CommitError
  outside_scope : List String → CommitError
  security_failed : List String → CommitError
  incomplete_deferred passed_with_deferred unresolved_deferred unhashable : CommitError
  git_raised : GitFailure → CommitError

-- The arguments of the gate; the secrets and the limit of the diff are those of the scan.
pub record GateRequest : Type 0 where
  pub tree_sha : String
  pub parent_sha : String
  pub mutable_scope : List String
  pub verification_status : String
  pub deferred_reason : Option String
  pub dependent_step_ids : List String
  pub deferred_command_or_contract : Option String
  pub security_passed : Bool

-- `len(line) < 2 or line[1] != " " or line.startswith("??")`
unfoldable pub dirty_line : String → Bool
unfolding has_prefix
dirty_line (String.◌∷◌ a (String.◌∷◌ b s)) =
    not (nat_eq (code b) b' ') || has_prefix (String.◌∷◌ a (String.◌∷◌ b s)) "??"
dirty_line line = true

unfoldable pub dirty_lines : List String → List String
unfolding dirty_line
dirty_lines [] = []
dirty_lines (x ∷ xs) = let rest = dirty_lines xs in if dirty_line x then x ∷ rest else rest

-- `(text or "").strip()`
abbrev pub stripped : Option String → String
stripped none = strip String.[]
stripped (some s) = strip s

-- `bool(text)` of an optional text
abbrev pub given : Option String → Bool
given none = false
given (some s) = not (is_empty s)

-- The metadata of a deferred verification.
unfoldable pub make_deferred : GateRequest → Outcome CommitError (Option DeferredVerification)
unfolding strip cut_text from_keys
make_deferred q = do
  let reason = stripped q.deferred_reason
  let dependents = from_keys [] q.dependent_step_ids
  let contract = stripped q.deferred_command_or_contract
  refuse_if (is_empty reason || (is_nil dependents || is_empty contract)) incomplete_deferred
  ok (
      some (record {
        reason = cut_text 2048 reason;
        dependent_step_ids = dependents;
        command_or_contract = cut_text 4096 contract;
      }))

-- The last part of the gate.
unfoldable pub deferred_of : GateRequest → Outcome CommitError (Option DeferredVerification)
unfolding make_deferred
deferred_of q =
    if q.verification_status == "deferred"
    then make_deferred q
    else refuse_if
        (given q.deferred_reason
          || (not (is_nil q.dependent_step_ids) || given q.deferred_command_or_contract))
        passed_with_deferred
      >> ok none

-- `allowed and any(path not in allowed for path in changed)`
abbrev pub scope_refusal : List String → List String → Outcome CommitError (Unit {0})
scope_refusal allowed unexpected =
    refuse_if (not (is_nil allowed) && not (is_nil unexpected)) (outside_scope (take 20 unexpected))

module _ {W : Type 0} (git : Git W) (resolve_tree : String → W → Outcome GitFailure String) where
  -- `commit_safety_gate`
  unfoldable pub commit_safety_gate : GateRequest → W → Outcome CommitError CommitSafetyResult
  unfolding dirty_lines deferred_of minus
  commit_safety_gate q w = do
    refuse_if (not (q.verification_status == "passed" || q.verification_status == "deferred"))
        not_verified
    refuse_if (not q.security_passed) security_not_passed
    head ← map_raised git_raised (git.current_head w)
    refuse_if (not (head == q.parent_sha)) head_changed
    index ← map_raised git_raised (git.index_tree_sha w)
    refuse_if (not (index == q.tree_sha)) tree_differs
    candidate ← map_raised git_raised (git.candidate_tree_sha w)
    refuse_if (not (candidate == q.tree_sha)) tree_differs
    status ← map_raised git_raised (git.status_porcelain w)
    refuse_if (not (is_nil (dirty_lines status))) worktree_dirty
    parent_tree ← map_raised git_raised (resolve_tree q.parent_sha w)
    changed ← map_raised git_raised (git.changed_paths_between_trees parent_tree q.tree_sha w)
    scope_refusal q.mutable_scope (minus changed q.mutable_scope)
    failures ← map_raised git_raised (git.scan_staged_security w)
    refuse_if (not (is_nil failures)) (security_failed (take 20 failures))
    deferred ← deferred_of q
    ok (record {
      parent_sha = q.parent_sha;
      tree_sha = q.tree_sha;
      changed_paths = changed;
      verification_status = q.verification_status;
      deferred = deferred;
    })

-- `StepVerification`
pub record StepVerification : Type 0 where
  pub status : String
  pub deferred : Option DeferredVerification

pub data VerificationError : Type 0 where
  invalid_record passed_carries_deferred incomplete_record unhashable_status : VerificationError

unfoldable pub deferred_fields : Option DeferredVerification → Fields
deferred_fields none =
    field "deferred_reason" null
      (field "dependent_step_ids" (arr nil) (field "deferred_command_or_contract" null end))
deferred_fields (some d) = field "deferred_reason" (str d.reason) (
    field "dependent_step_ids" (arr (text_items d.dependent_step_ids))
      (field "deferred_command_or_contract" (str d.command_or_contract) end))

-- `payload`
unfoldable pub verification_payload : StepVerification → Fields
unfolding deferred_fields
verification_payload v = field "status" (str v.status) (deferred_fields v.deferred)

-- A text that is not empty.
unfoldable pub text_field : Value → Outcome VerificationError String
text_field (str s) = if is_empty s then raised incomplete_record else ok s
text_field v = raised incomplete_record

unfoldable pub texts_of : Items → Outcome VerificationError (List String)
texts_of nil = ok []
texts_of (cons (str s) vs) = texts_of vs >>= λ xs. ok (s ∷ xs)
texts_of (cons v vs) = raised incomplete_record

unfoldable pub texts_field : Value → Outcome VerificationError (List String)
unfolding texts_of
texts_field (arr nil) = raised incomplete_record
texts_field (arr (cons v vs)) = texts_of (cons v vs)
texts_field v = raised incomplete_record

unfoldable pub from_status : Fields → Value → Outcome VerificationError StepVerification
unfolding text_field texts_field truthy
from_status d (str s) =
    if s == "passed"
    then refuse_if (not (is_null (get d "deferred_reason")) || truthy (get d "dependent_step_ids"))
        passed_carries_deferred
      >> ok (record { status = "passed"; deferred = none })
    else if s == "deferred"
    then (do
      reason ← text_field (get d "deferred_reason")
      dependents ← texts_field (get d "dependent_step_ids")
      command ← text_field (get d "deferred_command_or_contract")
      ok (record {
        status = "deferred";
        deferred = some (record {
          reason = reason;
          dependent_step_ids = dependents;
          command_or_contract = command;
        });
      }))
    else raised invalid_record
from_status d (arr vs) = raised unhashable_status
from_status d (obj fs) = raised unhashable_status
from_status d v = raised invalid_record

-- `from_payload`
unfoldable pub from_payload : Value → Outcome VerificationError StepVerification
unfolding from_status
from_payload (obj d) = from_status d (get d "status")
from_payload v = raised invalid_record
