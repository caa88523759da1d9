-- ===== src/Commit/Record.antt =====
-- commit_gate.py: the record of an accepted step, and the deferred verifications that are left.
use meta_harness.Common.{
  String, Bool, true, false, ◌||◌, Option, none, some, List, [], ◌∷◌, ◌==◌, nat_eq, if◌then◌else◌,
}
use meta_harness.Common.Outcome.{Outcome, ok, raised, ◌>>=◌, ◌>>◌}
use meta_harness.Common.Names.{sorted_set}
use meta_harness.Json.{
  pos, negsuc, Value, null, str, bool, int, float, obj, arr, Fields, end, field, Items, nil, cons,
  get, put, text_items,
}
use meta_harness.Commit.Safety.{DeferredVerification, CommitError, unresolved_deferred, unhashable}

-- What is read of an `EffectiveStepAuthority.summary()`.
pub record AuthoritySummary : Type 0 where
  pub effective_authority_sha256 : String
  pub effective_contract_sha256 : String
  pub approved_contract_sha256 : String

pub record AcceptedStep : Type 0 where
  pub step_id : String
  pub verification_status : String
  pub parent_sha : String
  pub commit_sha : String
  pub tree_before : String
  pub tree_after : String
  pub changed_paths : List String
  pub deferred : Option DeferredVerification

unfoldable pub deferred_entries : Option DeferredVerification → Fields → Fields
deferred_entries none d = put d "dependent_step_ids" (arr nil)
deferred_entries (some v) d =
    put
      (put (put d "deferred_reason" (str v.reason)) "dependent_step_ids"
        (arr (text_items v.dependent_step_ids)))
      "deferred_verify_command_or_contract" (str v.command_or_contract)

unfoldable pub authority_entries : AuthoritySummary → Fields → Fields
authority_entries a d =
    put
      (put (put d "effective_authority_sha256" (str a.effective_authority_sha256))
        "effective_contract_sha256" (str a.effective_contract_sha256))
      "approved_contract_sha256" (str a.approved_contract_sha256)

-- `accepted_step_record`, with an authority
unfoldable pub accepted_step_record : AcceptedStep → AuthoritySummary → Fields
unfolding sorted_set deferred_entries authority_entries
accepted_step_record a authority = authority_entries authority (
    deferred_entries a.deferred (
      field "step_id" (str a.step_id) (
        field "verification_status" (str a.verification_status) (
          field "parent_sha" (str a.parent_sha) (
            field "commit_sha" (str a.commit_sha) (
              field "tree_before" (str a.tree_before) (
                field "tree_after" (str a.tree_after)
                  (field "changed_paths" (arr (text_items (sorted_set a.changed_paths))) end))))))))

-- Python's `==` between two values that are not containers; a float is compared by its spelling, and
-- with floats only.
unfoldable pub same_scalar : Value → Value → Bool
same_scalar null null = true
same_scalar (str s) (str t) = s == t
same_scalar (bool true) (bool true) = true
same_scalar (bool false) (bool false) = true
same_scalar (bool true) (int (pos n)) = nat_eq n 1
same_scalar (bool false) (int (pos n)) = nat_eq n 0
same_scalar (int (pos n)) (bool true) = nat_eq n 1
same_scalar (int (pos n)) (bool false) = nat_eq n 0
same_scalar (int (pos n)) (int (pos m)) = nat_eq n m
same_scalar (int (negsuc n)) (int (negsuc m)) = nat_eq n m
same_scalar (float b s) (float c t) = s == t
same_scalar _ _ = false

-- The key of a set: a list and a dictionary raise.
unfoldable pub hashable : Value → Outcome CommitError (Unit {0})
hashable (arr vs) = raised unhashable
hashable (obj fs) = raised unhashable
hashable v = ok tt

-- `value == text`, of a value out of a record
abbrev pub is_word : String → Value → Bool
is_word w (str s) = s == w
is_word w v = false

abbrev pub rows_with : Value → List Fields → List Fields
rows_with (obj d) rows = d ∷ rows
rows_with v rows = rows

-- The records that are mappings.
unfoldable pub rows_of : List Value → List Fields
rows_of [] = []
rows_of (v ∷ vs) = rows_with v (rows_of vs)

abbrev pub has_status : String → Fields → Bool
has_status w row = is_word w (get row "verification_status")

-- `passed`
unfoldable pub passed_ids : List Fields → Outcome CommitError (List Value)
unfolding hashable
passed_ids [] = ok []
passed_ids (row ∷ rows) =
    let rest = passed_ids rows in
    if has_status "passed" row
    then hashable (get row "step_id") >> (rest >>= λ ids. ok (get row "step_id" ∷ ids))
    else rest

unfoldable pub value_in : Value → List Value → Bool
unfolding same_scalar
value_in v [] = false
value_in v (w ∷ ws) = same_scalar v w || value_in v ws

-- `any(item not in passed for item in dependencies)`: it stops at the first that is not.
unfoldable pub any_missing : Items → List Value → Outcome CommitError Bool
unfolding value_in hashable
any_missing nil passed = ok false
any_missing (cons v vs) passed =
    let rest = any_missing vs passed in hashable v >> (if value_in v passed then rest else ok true)

unfoldable pub is_unresolved : Value → List Value → Outcome CommitError Bool
unfolding any_missing
is_unresolved (arr vs) passed = any_missing vs passed
is_unresolved v passed = ok true

abbrev pub add_if : Bool → Fields → List Fields → List Fields
add_if true row rows = row ∷ rows
add_if false row rows = rows

unfoldable pub unresolved_rows : List Fields → List Value → Outcome CommitError (List Fields)
unfolding is_unresolved
unresolved_rows [] passed = ok []
unresolved_rows (row ∷ rows) passed =
    let rest = unresolved_rows rows passed in
    if has_status "deferred" row
    then (do
      b ← is_unresolved (get row "dependent_step_ids") passed
      more ← rest
      ok (add_if b row more))
    else rest

-- `unresolved_deferred_verifications`
unfoldable pub unresolved_deferred_verifications : List Value → Outcome CommitError (List Fields)
unfolding unresolved_rows passed_ids rows_of
unresolved_deferred_verifications records = do
  passed ← passed_ids (rows_of records)
  unresolved_rows (rows_of records) passed

abbrev pub none_left : List Fields → Outcome CommitError (Unit {0})
none_left [] = ok tt
none_left (row ∷ rows) = raised unresolved_deferred

-- `assert_deferred_verifications_resolved`
unfoldable pub assert_deferred_verifications_resolved : List Value → Outcome CommitError (Unit {0})
unfolding unresolved_deferred_verifications
assert_deferred_verifications_resolved records = do
  unresolved ← unresolved_deferred_verifications records
  none_left unresolved
