-- ===== src/Coordinator/Admission.antt =====
-- orchestration/recovery.py: `admit`, which classifies a failure and consumes its budget. The trace
-- that it emits is left out.
use Prim.Native.String.{◌++◌}
use meta_harness.Common.{
  ℕ, suc, ◌-◌, String, Bool, true, false, not, ◌||◌, Option, none, some, List, [], ◌∷◌, leb, nat_eq,
  if◌then◌else◌,
}
use meta_harness.Common.Outcome.{ok, map_raised}
use meta_harness.Common.Text.Decimal.{two_digits}
use meta_harness.Common.Effect.{Effect, ◌>>=◌, ◌>>◌, reading, giving}
use meta_harness.Policy.Table.{
  RecoveryStrategy, retry_targeted, fallback_executor, mark_failed_continue, wait_external,
  wait_human, hard_stop, terminal,
}
use meta_harness.Policy.Classify.{RecoveryDecision, classify_failure}
use meta_harness.Store.Disk.{Disk}
use meta_harness.Coordinator.Counters.{
  CoordinatorError, policy_error, used, RecoveryAttempt, bounded_operation, consume,
}

-- `RecoveryStrategy.value`
unfoldable pub strategy_value : RecoveryStrategy → String
strategy_value retry_targeted = "retry_targeted"
strategy_value fallback_executor = "fallback_executor"
strategy_value mark_failed_continue = "mark_failed_continue"
strategy_value wait_external = "wait_external"
strategy_value wait_human = "wait_human"
strategy_value hard_stop = "hard_stop"

abbrev strategy_index : RecoveryStrategy → ℕ
strategy_index retry_targeted = 0
strategy_index fallback_executor = 1
strategy_index mark_failed_continue = 2
strategy_index wait_external = 3
strategy_index wait_human = 4
strategy_index hard_stop = 5

-- `strategy in allowed`
unfoldable pub strategy_in : RecoveryStrategy → List RecoveryStrategy → Bool
strategy_in s [] = false
strategy_in s (t ∷ ts) = nat_eq (strategy_index s) (strategy_index t) || strategy_in s ts

-- The arguments of `admit`.
pub record AdmitRequest : Type 0 where
  pub key : String
  pub reason : String
  pub budget : ℕ
  pub phase : String
  pub cycle : Option ℕ
  pub step_id : Option String
  pub profile_id : Option String
  pub tree_before : Option String
  pub tree_after : Option String
  pub allowed : Option (List RecoveryStrategy)
  pub strategy : Option RecoveryStrategy

pub record RecoveryAdmission : Type 0 where
  pub admitted : Bool
  pub decision : RecoveryDecision
  pub attempt : ℕ
  pub used : ℕ
  pub budget : ℕ
  pub reason : String
  pub phase : String
  pub cycle : Option ℕ
  pub step_id : Option String
  pub tree_before : Option String
  pub exhausted : Bool

-- `RecoveryAdmission.remaining`
unfoldable pub remaining : RecoveryAdmission → ℕ
remaining a = a.budget - a.used

abbrev pub admission : AdmitRequest → ℕ → Bool → RecoveryDecision → ℕ → Bool → RecoveryAdmission
admission q before admitted decision now exhausted = record {
  admitted = admitted;
  decision = decision;
  attempt = suc before;
  used = now;
  budget = q.budget;
  reason = q.reason;
  phase = q.phase;
  cycle = q.cycle;
  step_id = q.step_id;
  tree_before = q.tree_before;
  exhausted = exhausted;
}

-- `allowed is not None and strategy not in allowed`
unfoldable pub beyond : Option (List RecoveryStrategy) → RecoveryStrategy → Bool
unfolding strategy_in
beyond none s = false
beyond (some ts) s = not (strategy_in s ts)

-- `strategy or decision.strategy`
abbrev executed : Option RecoveryStrategy → RecoveryStrategy → RecoveryStrategy
executed none s = s
executed (some t) s = t

unfoldable pub attempt_of : AdmitRequest → ℕ → RecoveryDecision → RecoveryAttempt
attempt_of q before decision = record {
  phase = q.phase;
  reason = q.reason;
  attempt = suc before;
  budget_key = q.key;
  budget = q.budget;
  budget_consumed = suc before;
  strategy = strategy_value (executed q.strategy decision.strategy);
  operation_id = "recovery:" ++ (q.key ++ (":" ++ two_digits (suc before)));
  cycle = q.cycle;
  step_id = q.step_id;
  profile_id = q.profile_id;
  tree_before = q.tree_before;
  tree_after = q.tree_after;
}

-- A failure that is refused: its ladder is at an end, or its strategy is not the caller's.
unfoldable pub refused : AdmitRequest → RecoveryDecision → Bool
unfolding beyond
refused q decision = terminal decision.strategy || beyond q.allowed decision.strategy

-- The last part of `admit`: the budget is consumed.
unfoldable pub start :
    String → AdmitRequest → ℕ → RecoveryDecision → Effect CoordinatorError Disk RecoveryAdmission
unfolding attempt_of
start now q before decision = do
  giving (bounded_operation (attempt_of q before decision).operation_id)
  consumed ← consume now q.key (attempt_of q before decision)
  giving (ok (admission q before true decision consumed false))

unfoldable pub exhaust : AdmitRequest → ℕ → Effect CoordinatorError Disk RecoveryAdmission
exhaust q before = do
  decision ← giving (map_raised policy_error (classify_failure q.reason true))
  giving (ok (admission q before false decision before true))

unfoldable pub settle :
    String → AdmitRequest → ℕ → RecoveryDecision → Effect CoordinatorError Disk RecoveryAdmission
unfolding start exhaust refused
settle now q before decision =
    if refused q decision
    then giving (ok (admission q before false decision before false))
    else if leb q.budget before
    then exhaust q before
    else start now q before decision

-- `admit`
unfoldable pub admit : String → AdmitRequest → Effect CoordinatorError Disk RecoveryAdmission
unfolding settle
admit now q = do
  before ← reading (used q.key)
  decision ← giving (map_raised policy_error (classify_failure q.reason false))
  settle now q before decision
