-- ===== src/Steps/Settling.antt =====
-- orchestration/step_execution.py: the operations that settle a step, over the run's directory and a world.
use meta_harness.Common.{
  String, Bool, true, false, not, Option, none, some, List, ◌∷◌, [], ◌++◌, ◌==◌, is_some,
  if◌then◌else◌,
}
use meta_harness.Common.Outcome.{ok, map_raised}
use meta_harness.Common.Text.{is_empty}
use meta_harness.Common.Effect.{Effect, ◌>>=◌, ◌>>◌, reading, giving, on_first, on_second}
use meta_harness.Json.{Value, str, obj, Fields, get}
use meta_harness.Policy.Classify.{classify_failure}
use meta_harness.Store.Disk.{Disk, StoreError, load}
use meta_harness.Store.Writes.{update_metadata}
use meta_harness.Attempt.Transaction.{AttemptError, audit_ownership, freeze, scan_if, rollback}
use meta_harness.Coordinator.Admission.{strategy_value}
use meta_harness.Coordinator.Worker.{caught}
use meta_harness.Steps.Finalize.{RunDir}
use meta_harness.Steps.Settle.{
  SettleError, git_failed, unclassified, not_stored, not_settled, settled_step_status,
  recovery_rows, distinct, Abandoned, continued_fields, skipped_fields, settled_fields, restored_or,
  green_attempt, strategies_with, SettleHost,
}

unfoldable pub on_store : {A : Type 0} → Effect StoreError Disk A → Effect SettleError RunDir A
on_store m r = (map_raised not_stored (m r.disk).0, record r { disk = (m r.disk).1 })

module _ {W : Type 0} (host : SettleHost W) where
  -- Writes `step.json`.
  unfoldable pub write_record : Fields → Effect SettleError RunDir (Unit {0})
  write_record d r = (ok tt, record r { step_record = obj d })

  -- `store.update_metadata(current_step=None, steps=...)`
  unfoldable pub store_settled : Effect SettleError (RunDir × W) (Unit {0})
  unfolding on_store
  store_settled = do
    rows ← reading (λ s. map_raised not_settled (host.state_steps s.0))
    now ← reading (λ s. ok (host.now s.1))
    written ← on_first (λ e. e) (on_store (update_metadata now none (settled_fields rows)))
    giving (ok tt)

  -- `_settle`, of a record with its `id`
  unfoldable pub settle : Fields → Effect SettleError (RunDir × W) (Unit {0})
  unfolding write_record store_settled
  settle d = do
    on_first not_settled host.archive_attempt
    on_first (λ e. e) (write_record d)
    store_settled

  -- The `try` block, which ends with an exact rollback.
  unfoldable pub put_back_green : Abandoned → Effect AttemptError W (String × List String)
  unfolding green_attempt audit_ownership freeze scan_if rollback
  put_back_green q = do
    audit_ownership host.git (green_attempt q)
    frozen ← freeze host.git (green_attempt q)
    scan_if host.git (not (frozen.0 == q.green.tree))
    rollback host.git (green_attempt q) frozen.1
    giving (ok frozen)

  -- `_mark_failed_continue`
  unfoldable pub mark_failed_continue : Abandoned → Effect SettleError (RunDir × W) (Unit {0})
  unfolding put_back_green caught restored_or settle continued_fields recovery_rows distinct
      strategies_with
  mark_failed_continue q = do
    answer ← on_second git_failed (λ w. caught (put_back_green q w))
    frozen ← giving (restored_or answer)
    decision ← giving (map_raised unclassified (classify_failure q.failure.reason true))
    state ← reading (λ s. map_raised not_stored (load s.0.disk.state_file))
    rows ← giving (recovery_rows (get state "recovery_attempts"))
    strategies ←
        giving (distinct [] (strategies_with q rows ++ str (strategy_value decision.strategy) ∷ []))
    settle (continued_fields host.bounded_v2_report q strategies frozen.1)

  -- The skip of a step whose dependency was settled: whether `execute_cycle_step` returns there.
  unfoldable pub skip_dependent :
      String → Option String → Value → Effect SettleError (RunDir × W) Bool
  unfolding settled_step_status settle skipped_fields
  skip_dependent step_id none record_of = giving (ok false)
  skip_dependent step_id (some dependency) record_of =
      if is_empty dependency then giving (ok false) else (do
        status ← giving (settled_step_status host.readable record_of dependency)
        if is_some status
            then (do settle (skipped_fields step_id dependency); giving (ok true))
            else giving (ok false))
