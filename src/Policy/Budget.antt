-- ===== src/Policy/Budget.antt =====
-- recovery_policy.py: the integer limits of `AutonomyBudget`.
use meta_harness.Common.{ℕ, ◌&&◌, leb, if◌then◌else◌}
use meta_harness.Common.Outcome.{Outcome, ok, raised, ◌>>=◌}
use meta_harness.Json.{pos, Value, int}

pub data BudgetError : Type 0 where
  step_attempts_invalid audit_repairs_invalid max_iterations_invalid : BudgetError

-- An integer, and no `bool`, between two bounds of `_BUDGET_BOUNDS`.
unfoldable pub bounded : ℕ → ℕ → BudgetError → Value → Outcome BudgetError ℕ
bounded lo hi e (int (pos n)) = if leb lo n && leb n hi then ok n else raised e
bounded lo hi e _ = raised e

pub record Limits : Type 0 where
  pub step_attempts : ℕ
  pub audit_repairs : ℕ
  pub max_iterations : ℕ

-- The loop over `_BUDGET_BOUNDS` in `AutonomyBudget.__post_init__`.
unfoldable pub make_limits : Value → Value → Value → Outcome BudgetError Limits
unfolding bounded
make_limits s a m = do
  attempts ← bounded 1 10 step_attempts_invalid s
  repairs ← bounded 0 10 audit_repairs_invalid a
  iterations ← bounded 1 99 max_iterations_invalid m
  ok (record { step_attempts = attempts; audit_repairs = repairs; max_iterations = iterations })
