-- ===== src/Steps/Continued.antt =====
-- orchestration/step_execution.py: the results of `_mark_failed_continue` and of the skip in
-- `execute_cycle_step`.
use meta_harness.Common.{
  String, ◌≡◌, refl, sym, ap, ◌∙◌, Bool, true, false, not, Option, none, some, List, [], ◌∷◌, ◌++◌,
  ◌==◌, eq_refl, is_some, if◌then◌else◌, inl, inr, Bool-cases,
}
use meta_harness.Common.Outcome.{Outcome, ok, raised, map_raised, ok-injective, bind-ok}
use meta_harness.Common.Text.{is_empty}
use meta_harness.Common.Effect.{
  ◌>>◌, giving, on_second, on_second-ok, continue-ok, continue-reading, giving-ok,
}
use meta_harness.Json.{Value, str, obj, Fields, get}
use meta_harness.Policy.Classify.{classify_failure}
use meta_harness.Store.Disk.{load}
use meta_harness.Attempt.Transaction.{
  Violation, violation_code, audit_ownership, freeze, scan_if, rollback,
}
use meta_harness.Attempt.Rollback.{IsExact, IsOwned, rollback-IsExact}
use meta_harness.Coordinator.Admission.{strategy_value}
use meta_harness.Coordinator.Worker.{caught}
use meta_harness.Coordinator.Retried.{caught-ok}
use meta_harness.Steps.Finalize.{RunDir}
use meta_harness.Steps.Settle.{
  git_failed, unclassified, not_stored, settled_status, status_in, settled_step_status,
  recovery_rows, distinct, Abandoned, continued_fields, skipped_fields, rollback_code, restored_or,
  green_attempt, strategies_with, SettleHost,
}
use meta_harness.Steps.Settled.{IsSettledAs, settle-IsSettledAs, status-settled}
use meta_harness.Steps.Settling.{settle, put_back_green, mark_failed_continue, skip_dependent}

module _ {W : Type 0} (host : SettleHost W) where
  put_back_green-IsExact :
      (q : Abandoned) (w : W) {frozen : String × List String} {w' : W}
      → put_back_green host q w ≡ (ok frozen, w')
      → IsExact host.git q.green w' × IsOwned host.git (green_attempt q) w'
  unfolding put_back_green green_attempt
  put_back_green-IsExact q w h =
      let t = green_attempt q in
      let (u1, w1, p1, k1) = continue-ok (audit_ownership host.git t w) _ h in
      let (frozen, w2, p2, k2) = continue-ok (freeze host.git t w1) _ k1 in
      let (u3, w3, p3, k3) =
        continue-ok (scan_if host.git (not (frozen.0 == q.green.tree)) w2) _ k2 in
      let (u4, w4, p4, k4) = continue-ok (rollback host.git t frozen.1 w3) _ k3 in
      let still = (giving-ok k4).1 in
      let (exact, owned) = rollback-IsExact host.git t frozen.1 w3 p4 in
      (rw still at exact, rw still at owned)

  restored_or-ok :
      (o : Outcome Violation (String × List String)) {frozen : String × List String}
      → restored_or o ≡ ok frozen
      → o ≡ ok frozen
  unfolding restored_or
  restored_or-ok (ok p) h = ap ok (ok-injective h)
  restored_or-ok (raised v) h =
      let (code, p, k) = bind-ok (rollback_code (violation_code v)) _ h in cc

  -- What the run keeps of a step that failed: the repository is exactly the green one, its ownership
  -- unviolated, and the step's record carries the green tree.
  pub record IsContinued (q : Abandoned) (s' : RunDir × W) : Type 0 where
    pub exact : IsExact host.git q.green s'.1
    pub owned : IsOwned host.git (green_attempt q) s'.1
    pub changed : List String
    pub strategies : List Value
    pub settled :
        IsSettledAs host (continued_fields host.bounded_v2_report q strategies changed) s'.0
    pub answered :
        settled_step_status host.readable s'.0.step_record q.step_id
        ≡ ok (
            if host.readable (obj (continued_fields host.bounded_v2_report q strategies changed))
            then some "FAILED_CONTINUED"
            else none)

  continued-status :
      (q : Abandoned) (strategies : List Value) (changed : List String)
      → status_in (obj (continued_fields host.bounded_v2_report q strategies changed)) q.step_id
        ≡ ok (some "FAILED_CONTINUED")
  unfolding status_in settled_status continued_fields get
  continued-status q strategies changed = rw (eq_refl q.step_id) refl

  -- When `_mark_failed_continue` returns, the candidate, the index and the status are exactly those of the
  -- last green tree, Git ownership is unviolated, no step is current in the store, and `step.json` is the
  -- record of the failure with the green tree as the restored one. A record that can be read answers
  -- that the step failed and was continued; one that is too large to be read leaves it unsettled.
  pub mark_failed_continue-IsContinued :
      (q : Abandoned) (s s' : RunDir × W)
      → mark_failed_continue host q s ≡ (ok tt, s')
      → IsContinued q s'
  unfolding mark_failed_continue
  mark_failed_continue-IsContinued q s s' h =
      let undo = λ (w : W). caught (put_back_green host q w) in
      let (answer, s1, p1, k1) = continue-ok (on_second git_failed undo s) _ h in
      let undone = (on_second-ok git_failed undo s p1).0 in
      let (frozen, p2, k2) = continue-reading (restored_or answer) s1 _ k1 in
      let back =
        caught-ok (put_back_green host q s.1)
          (undone ∙ ap (λ o. (ok o, s1.1)) (restored_or-ok answer p2)) in
      let (exact, owned) = put_back_green-IsExact q s.1 back in
      let (decision, p3, k3) =
        continue-reading (map_raised unclassified (classify_failure q.failure.reason true)) s1 _
          k2 in
      let (state, p4, k4) =
        continue-reading (map_raised not_stored (load s1.0.disk.state_file)) s1 _ k3 in
      let (rows, p5, k5) =
        continue-reading (recovery_rows (get state "recovery_attempts")) s1 _ k4 in
      let (strategies, p6, k6) =
        continue-reading
          (distinct [] (strategies_with q rows ++ str (strategy_value decision.strategy) ∷ [])) s1 _
          k5 in
      let d = continued_fields host.bounded_v2_report q strategies frozen.1 in
      let (still, settled) = settle-IsSettledAs host d s1 k6 in
      record {
        exact = rw still exact;
        owned = rw still owned;
        changed = frozen.1;
        strategies = strategies;
        settled = settled;
        answered =
            status-settled host d s'.0 q.step_id "FAILED_CONTINUED" settled
              (continued-status q strategies frozen.1);
      }

  skipped-status :
      (step_id dependency : String)
      → status_in (obj (skipped_fields step_id dependency)) step_id ≡ ok (some "SKIPPED_DEPENDENCY")
  unfolding status_in settled_status skipped_fields get
  skipped-status step_id dependency = rw (eq_refl step_id) refl

  skip-settled :
      (b : Bool) (d : Fields) (s s' : RunDir × W)
      → (if b then (settle host d >> giving (ok true)) else giving (ok false)) s ≡ (ok true, s')
      → (b ≡ true) × (s'.1 ≡ s.1) × IsSettledAs host d s'.0
  skip-settled true d s s' h =
      let (u, s1, p, k) = continue-ok (settle host d s) _ h in
      let (still, settled) = settle-IsSettledAs host d s p in
      let last = (giving-ok k).1 in (refl, ap (λ x. x.1) (sym last) ∙ still, rw last at settled)
  skip-settled false d s s' h = cc

  -- A step that was skipped: its dependency had settled, the repository is as it was, and the record of the
  -- step is that of a skip, so that it is settled itself.
  pub record IsSkipped (step_id : String) (dependency : Option String) (v : Value)
      (s s' : RunDir × W) : Type 0 where
    pub name : String
    pub named : dependency ≡ some name
    pub status : String
    pub settled_before : settled_step_status host.readable v name ≡ ok (some status)
    pub still : s'.1 ≡ s.1
    pub settled : IsSettledAs host (skipped_fields step_id name) s'.0
    pub answered :
        settled_step_status host.readable s'.0.step_record step_id
        ≡ ok (
            if host.readable (obj (skipped_fields step_id name))
            then some "SKIPPED_DEPENDENCY"
            else none)

  some_status : (o : Option String) → is_some o ≡ true → (status : String) × (o ≡ some status)
  some_status (some x) h = (x, refl)
  some_status none h = cc

  -- When `execute_cycle_step` returns for the dependency of a step, that dependency was recorded as
  -- settled, the repository is as it was, and the step is settled in its turn: no step is current in the
  -- store, and its record answers that it was skipped, or nothing if it is too large to be read.
  pub skip_dependent-IsSkipped :
      (step_id : String) (dependency : Option String) (v : Value) (s s' : RunDir × W)
      → skip_dependent host step_id dependency v s ≡ (ok true, s')
      → IsSkipped step_id dependency v s s'
  unfolding skip_dependent
  skip_dependent-IsSkipped step_id none v s s' h = cc
  skip_dependent-IsSkipped step_id (some name) v s s' h = elim (Bool-cases (is_empty name)) [
    | inl e ↦ cc (rw e at h)
    | inr e ↦
        let (o, p, k) =
          continue-reading (settled_step_status host.readable v name) s _ (rw e at h) in
        let d = skipped_fields step_id name in
        let (found, still, settled) = skip-settled (is_some o) d s s' k in
        let (status, read) = some_status o found in
        record {
          name = name;
          named = refl;
          status = status;
          settled_before = p ∙ ap ok read;
          still = still;
          settled = settled;
          answered =
              status-settled host d s'.0 step_id "SKIPPED_DEPENDENCY" settled
                (skipped-status step_id name);
        }
  ]
