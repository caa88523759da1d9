-- ===== src/Policy/Classify.antt =====
-- recovery_policy.py: `RecoveryDecision`, with the checks of its `__post_init__`, and
-- `classify_failure`.
use meta_harness.Common.{
  String, Bool, true, false, not, ◌||◌, Option, none, some, if◌then◌else◌, is_some,
}
use meta_harness.Common.Outcome.{Outcome, ok, ◌>>=◌, ◌>>◌, refuse_if}
use meta_harness.Common.Text.{is_blank}
use meta_harness.Policy.Table.{
  FailureClass, spec_decision, fatal, fixable, RecoveryStrategy, wait_human, hard_stop,
  recovery_ladder, Ladder, last, reason_of,
}
use meta_harness.Policy.Codes.{
  PolicyError, blank_decision_reason, forbidden_strategy, canonical_failure_code, lookup,
}

pub record RecoveryDecision : Type 0 where
  pub failure_class : FailureClass
  pub strategy : RecoveryStrategy
  pub reason : String
  pub known : Bool

abbrev is_hard_stop : RecoveryStrategy → Bool
is_hard_stop hard_stop = true
is_hard_stop _ = false

abbrev is_wait_human : RecoveryStrategy → Bool
is_wait_human wait_human = true
is_wait_human _ = false

abbrev is_fatal : FailureClass → Bool
is_fatal fatal = true
is_fatal _ = false

abbrev is_spec : FailureClass → Bool
is_spec spec_decision = true
is_spec _ = false

abbrev differ : Bool → Bool → Bool
differ true b = not b
differ false b = b

-- `RecoveryDecision(failure_class, strategy, reason, known)`
unfoldable pub make_decision :
    FailureClass → RecoveryStrategy → String → Bool → Outcome PolicyError RecoveryDecision
make_decision c s r k = do
  refuse_if (is_blank r) blank_decision_reason
  refuse_if (differ (is_hard_stop s) (is_fatal c) || differ (is_wait_human s) (is_spec c))
      forbidden_strategy
  ok (record { failure_class = c; strategy = s; reason = r; known = k })

-- `known or FailureClass.FIXABLE`
abbrev pub class_or_fixable : Option FailureClass → FailureClass
class_or_fixable (some c) = c
class_or_fixable none = fixable

unfoldable pub rung : Ladder → Bool → RecoveryStrategy
rung l exhausted = if exhausted then last l else l.first

-- `classify_failure(failure, exhausted=...)`
unfoldable pub classify_failure : String → Bool → Outcome PolicyError RecoveryDecision
classify_failure failure exhausted = do
  code ← canonical_failure_code failure
  let known = lookup code
  let c = class_or_fixable known
  make_decision c (rung (recovery_ladder c) exhausted) (reason_of c) (is_some known)
