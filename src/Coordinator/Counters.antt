-- ===== src/Coordinator/Counters.antt =====
-- orchestration/recovery.py: the durable budgets, `used`, `consume` and `budget_key`.
use Prim.Native.String.{◌++◌}
use meta_harness.Common.{
  ℕ, zero, suc, ◌-◌, String, ◌||◌, Option, none, List, [], ◌∷◌, ltb, if◌then◌else◌,
}
use meta_harness.Common.Outcome.{Outcome, ok, raised, ◌>>=◌, refuse_if, map_raised}
use meta_harness.Common.Text.Decimal.{text_length}
use meta_harness.Common.Effect.{Effect}
use meta_harness.Json.{
  pos, Value, str, int, obj, arr, Fields, end, field, Items, nil, cons, get, has_key, put, opt_str,
  opt_int,
}
use meta_harness.Policy.Codes.{PolicyError}
use meta_harness.Store.Disk.{Disk, StoreError, load}
use meta_harness.Store.Writes.{update_metadata}

-- What the methods of the coordinator raise, a constructor for each place.
pub data CoordinatorError : Type 0 where
  counters_malformed counter_malformed attempts_malformed operation_id_reused : CoordinatorError
  operation_id_unbounded : CoordinatorError
  store_error : StoreError → CoordinatorError
  policy_error : PolicyError → CoordinatorError

-- `d.get(key, default)`
unfoldable pub get_or : Fields → String → Value → Value
get_or d k v = if has_key d k then get d k else v

unfoldable pub count_of : Value → Outcome CoordinatorError ℕ
count_of (int (pos n)) = ok n
count_of v = raised counter_malformed

-- `_counter_value`
unfoldable pub counter_value : Value → String → Outcome CoordinatorError ℕ
unfolding get_or count_of
counter_value (obj counters) key = count_of (get_or counters key (int (pos 0)))
counter_value v key = raised counters_malformed

-- `state.get("recovery_counters", {})`
unfoldable pub counters_in : Fields → Value
unfolding get_or
counters_in state = get_or state "recovery_counters" (obj end)

-- `used`
unfoldable pub used : String → Disk → Outcome CoordinatorError ℕ
unfolding counters_in
used key d = do
  state ← map_raised store_error (load d.state_file)
  counter_value (counters_in state) key

-- `budget_key`
unfoldable pub budget_key : String → List String → String
budget_key kind [] = kind
budget_key kind (part ∷ parts) = budget_key (kind ++ ":" ++ part) parts

pub record RecoveryAttempt : Type 0 where
  pub phase : String
  pub reason : String
  pub attempt : ℕ
  pub budget_key : String
  pub budget : ℕ
  pub budget_consumed : ℕ
  pub strategy : String
  pub operation_id : String
  pub cycle : Option ℕ
  pub step_id : Option String
  pub profile_id : Option String
  pub tree_before : Option String
  pub tree_after : Option String

-- `RecoveryAttempt.__post_init__`
unfoldable pub bounded_operation : String → Outcome CoordinatorError (Unit {0})
bounded_operation id =
    refuse_if (ltb (text_length id) 1 || ltb 256 (text_length id)) operation_id_unbounded

-- `_attempt_record(attempt, budget_consumed=...)`
unfoldable pub attempt_record : RecoveryAttempt → ℕ → Fields
attempt_record a consumed = field "phase" (str a.phase) (
    field "reason" (str a.reason) (
      field "attempt" (int (pos a.attempt)) (
        field "budget_key" (str a.budget_key) (
          field "budget" (int (pos a.budget)) (
            field "budget_consumed" (int (pos consumed)) (
              field "strategy" (str a.strategy) (
                field "operation_id" (str a.operation_id) (
                  field "cycle" (opt_int a.cycle) (
                    field "step_id" (opt_str a.step_id) (
                      field "profile_id" (opt_str a.profile_id) (
                        field "tree_before" (opt_str a.tree_before)
                          (field "tree_after" (opt_str a.tree_after) end))))))))))))

unfoldable pub items_length : Items → ℕ
items_length nil = 0
items_length (cons v vs) = suc (items_length vs)

unfoldable pub append_item : Items → Value → Items
append_item nil w = cons w nil
append_item (cons v vs) w = cons v (append_item vs w)

unfoldable pub drop_items : ℕ → Items → Items
drop_items zero vs = vs
drop_items (suc n) nil = nil
drop_items (suc n) (cons v vs) = drop_items n vs

-- `xs[-MAX_RECOVERY_ATTEMPT_RECORDS:]`
unfoldable pub newest : Items → Items
unfolding items_length drop_items
newest vs = drop_items (items_length vs - 256) vs

unfoldable pub items_of : Value → Outcome CoordinatorError Items
items_of (arr vs) = ok vs
items_of v = raised attempts_malformed

-- `{**counters, key: value}`, of counters that `_counter_value` has read
abbrev pub with_counter : Value → String → ℕ → Value
with_counter (obj counters) key n = obj (put counters key (int (pos n)))
with_counter v key n = v

-- The keyword arguments of the write in `consume`.
abbrev pub consumed_fields : Value → Items → Fields
consumed_fields counters attempts =
    field "recovery_counters" counters (field "recovery_attempts" (arr attempts) end)

-- What `consume` computes before it writes.
unfoldable pub consumption : String → RecoveryAttempt → Disk → Outcome CoordinatorError (ℕ × Fields)
unfolding counters_in get_or newest append_item items_of
consumption key attempt d = do
  state ← map_raised store_error (load d.state_file)
  before ← counter_value (counters_in state) key
  attempts ← items_of (get_or state "recovery_attempts" (arr nil))
  let value = suc before
  let records = newest (append_item attempts (obj (attempt_record attempt value)))
  ok (value, consumed_fields (with_counter (counters_in state) key value) records)

abbrev pub store_result :
    ℕ → Outcome StoreError (Option Fields) × Disk → Outcome CoordinatorError ℕ × Disk
store_result n (ok w, d) = (ok n, d)
store_result n (raised e, d) = (raised (store_error e), d)

abbrev write_consumption :
    String → Disk → Outcome CoordinatorError (ℕ × Fields) → Outcome CoordinatorError ℕ × Disk
write_consumption now d (raised e) = (raised e, d)
write_consumption now d (ok (value, fields)) =
    store_result value (update_metadata now none fields d)

-- `consume`: the load and the write that follows it, with no other writer in between
unfoldable pub consume : String → String → RecoveryAttempt → Effect CoordinatorError Disk ℕ
unfolding consumption
consume now key attempt d = write_consumption now d (consumption key attempt d)
