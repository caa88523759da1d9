-- ===== src/Policy/Table.antt =====
-- recovery_policy.py: the classes, the strategies, the classification table and the ladders.
use meta_harness.Common.{String, Bool, true, false, List, [], ◌∷◌}

pub data FailureClass : Type 0 where
  transient fixable spec_decision fatal : FailureClass

pub data RecoveryStrategy : Type 0 where
  retry_targeted fallback_executor mark_failed_continue : RecoveryStrategy
  wait_external wait_human hard_stop : RecoveryStrategy

-- `RecoveryStrategy.terminal`
abbrev pub terminal : RecoveryStrategy → Bool
terminal wait_external = true
terminal wait_human = true
terminal hard_stop = true
terminal _ = false

abbrev pub Row : Type 0
Row = String × FailureClass

-- `FAILURE_CLASSES`, in the order in which the patterns are tried.
unfoldable pub failure_classes : List Row
failure_classes =
    ("UNSCANNABLE_STAGED_BLOB", fatal)
    ∷ ("STAGED_BLOB_SCAN_FAILED", fatal)
    ∷ ("UNREVIEWABLE_TEXT_DIFF", fatal)
    ∷ ("HEAD_MODIFIED_OUTSIDE_AUTHORITY", fatal)
    ∷ ("BRANCH_MODIFIED_OUTSIDE_AUTHORITY", fatal)
    ∷ ("REMOTE_AUTHORITY_MISMATCH", fatal)
    ∷ ("ROLLBACK_TREE_MISMATCH", fatal)
    ∷ ("SECRET_*", fatal)
    ∷ ("*_BLOB_NOT_REVIEWABLE", fatal)
    ∷ ("COMMIT_SECURITY_FAILURE", fatal)
    ∷ ("TREE_MODIFIED_OUTSIDE_AUTHORITY", fatal)
    ∷ ("BASE_MOVED_SINCE_RUN", fatal)
    ∷ ("REPOSITORY_TREE_DRIFT_UNEXPLAINED", fatal)
    ∷ ("HARD_DENY_PATH_MUTATION", fatal)
    ∷ ("ROLLBACK_FAILED", fatal)
    ∷ ("RESUME_REQUIRES_OPERATOR", fatal)
    ∷ ("RESUME_INTEGRITY_FAILURE", fatal)
    ∷ ("DURABLE_ARTIFACT_CORRUPTED", fatal)
    ∷ ("RUN_SCHEMA_UNSUPPORTED", fatal)
    ∷ ("AUDIT_PROFILE_NOT_WRITABLE", fatal)
    ∷ ("SPEC_DECISION_REQUIRED", spec_decision)
    ∷ ("LLM_*", transient)
    ∷ ("AGENT_RUNTIME_FAILED", transient)
    ∷ ("AGENT_TIMEOUT", transient)
    ∷ ("EXTERNAL_AUTH_REQUIRED", transient)
    ∷ ("PUSH_FAILED", transient)
    ∷ ("GITHUB_WORKSTREAM_FAILURE", transient)
    ∷ ("GIT_FAILURE", transient)
    ∷ ("CHECK_INFRASTRUCTURE_UNAVAILABLE", transient)
    ∷ ("CHECK_SIDE_EFFECT_REPEATED", transient)
    ∷ ("AGENT_CONTRACT_MISMATCH", fixable)
    ∷ ("AGENT_SCOPE_VIOLATION", fixable)
    ∷ ("AGENT_GIT_VIOLATION", fixable)
    ∷ ("CHECK_FAILED", fixable)
    ∷ ("DETERMINISTIC_GATE_FAILED", fixable)
    ∷ ("INTERNAL_HARNESS_ERROR", fixable)
    ∷ ("CONFIGURATION_INVALID", fixable)
    ∷ ("PER_STEP_GATE_REGRESSION", fixable)
    ∷ ("PLANNER_OUTPUT_INVALID", fixable)
    ∷ ("PLAN_APPROVAL_INVALID", fixable)
    ∷ ("COMMIT_GATE_FAILED", fixable)
    ∷ []

-- A ladder is a tuple that is never empty: the step below the first ones is its last.
pub record Ladder : Type 0 where
  pub first : RecoveryStrategy
  pub rest : List RecoveryStrategy

-- `RECOVERY_LADDERS`, and `recovery_ladder`
unfoldable pub recovery_ladder : FailureClass → Ladder
recovery_ladder transient = record {
  first = retry_targeted;
  rest = fallback_executor ∷ wait_external ∷ [];
}
recovery_ladder fixable = record {
  first = retry_targeted;
  rest = fallback_executor ∷ mark_failed_continue ∷ [];
}
recovery_ladder spec_decision = record { first = wait_human; rest = [] }
recovery_ladder fatal = record { first = hard_stop; rest = [] }

last_of : RecoveryStrategy → List RecoveryStrategy → RecoveryStrategy
last_of s [] = s
last_of s (t ∷ ts) = last_of t ts

-- `ladder[-1]`
unfoldable pub last : Ladder → RecoveryStrategy
unfolding last_of
last l = last_of l.first l.rest

-- `_REASONS`
unfoldable pub reason_of : FailureClass → String
reason_of transient = "a temporary external condition; retried, then waited on"
reason_of fixable = "an ordinary failure; recovered autonomously"
reason_of spec_decision = "a product decision the SPEC does not settle"
reason_of fatal = "a proven, irrecoverable authority or integrity boundary"
