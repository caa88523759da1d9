-- ===== src/Steps/Spent.antt =====
-- orchestration/step_execution.py: the durable budget of a step behind one round of its ladder.
use mathlib.Core.Path.{subst}
use meta_harness.Common.{
  ℕ, suc, ◌-◌, ◌<◌, String, ◌≡◌, refl, sym, ap, ◌∙◌, Bool, true, false, Option, none, some, List,
  [], ◌∷◌, ◌⊎◌, inl, inr, arith, ltb, if◌then◌else◌, Bool-cases, ◌==◌,
}
use meta_harness.Common.Outcome.{Outcome, ok, raised, map_raised}
use meta_harness.Common.Effect.{
  Effect, catching, on_first, on_second, on_first-ok, on_second-ok, continue-ok, continue-reading,
  giving-ok, translated-ok,
}
use meta_harness.Common.Lists.{length}
use meta_harness.Store.Disk.{Disk}
use meta_harness.Policy.Classify.{classify_failure}
use meta_harness.Attempt.Ownership.{GitOwnership}
use meta_harness.Coordinator.Counters.{used}
use meta_harness.Coordinator.Admission.{RecoveryAdmission, admit}
use meta_harness.Coordinator.Bounded.{admit-admitted}
use meta_harness.Coordinator.Exit.{normalize_exit_reason}
use meta_harness.Coordinator.Worker.{StepFailure, step_fields, admit_step_retry}
use meta_harness.Coordinator.Answered.{IsAnswered, declined, retried, admit_step_retry-IsAnswered}
use meta_harness.Steps.Attempt.{
  StepExecutionOutcome, StepRaise, LadderHost, LadderError, escaped, unnamed, unclassified,
  not_counted, not_retried, StepPlan, now_then, store_fields, try_attempt,
}
use meta_harness.Steps.Kept.{
  step_fields-counters, store_fields-used, try_attempt-disk, candidate_tree-disk,
  complete_pending-disk,
}
use meta_harness.Steps.Rung.{
  Rung, Round, onward, failure_fields, executor_fields, retry_of, fallback_request, rolled_back,
  guarded,
}
use meta_harness.Steps.Ladder.{
  give_up, candidate_tree, complete_pending, retryable, fall_to, ask_fallback, next_rung, unretried,
  retried_or, after_failure, settled, round, turn_of,
}

module _ {W : Type 0} (host : LadderHost W) (plan : StepPlan) (ownership : GitOwnership) where
  -- What a round that goes on has consumed: a unit that no remaining fallback needs, or the unit of the
  -- fallback that it falls to.
  pub record IsSpent (left : List String) (d : Disk) (st' : Rung) (d' : Disk) : Type 0 where
    pub before : ℕ
    pub counted : used plan.retry_key d ≡ ok before
    pub below : before < plan.attempts - 1
    pub spent : used plan.retry_key d' ≡ ok (suc before)
    pub rungs :
        ((st'.fallbacks ≡ left) × (before < plan.attempts - 1 - length left))
        ⊎ ((profile : String) × (left ≡ profile ∷ st'.fallbacks) × (st'.active_profile ≡ profile))

  fall_to-used :
      (st : Rung) (f : StepFailure) (profile : String) (rest : List String) (s : Disk × W)
      {st' : Rung} {s' : Disk × W}
      → fall_to host plan ownership st f profile rest s ≡ (ok (onward st'), s')
      → (used plan.retry_key s'.0 ≡ used plan.retry_key s.0)
        × (st'.fallbacks ≡ rest)
        × (st'.active_profile ≡ profile)
  unfolding fall_to
  fall_to-used st f profile rest s h =
      let (t, s1, p1, k1) = continue-ok (candidate_tree host plan ownership s) _ h in
      let keep = host.archive_attempt plan.artifact_dir in
      let (u2, s2, p2, k2) = continue-ok (on_second escaped keep s1) _ k1 in
      let write = host.write_artifact "executor.json" (executor_fields profile) in
      let (u3, s3, p3, k3) = continue-ok (on_second escaped write s2) _ k2 in
      let (u4, s4, p4, k4) = continue-ok (store_fields host (step_fields plan.step_id) s3) _ k3 in
      let (made, there) = giving-ok k4 in
      let same : s3.0 ≡ s.0 =
        (on_second-ok escaped write s2 p3).1
        ∙ ((on_second-ok escaped keep s1 p2).1 ∙ candidate_tree-disk host plan ownership s p1) in
      (
        ap (λ x. used plan.retry_key x.0) (sym there)
            ∙ (store_fields-used host (step_fields plan.step_id) s3 plan.retry_key
                  (step_fields-counters plan.step_id) p4
                ∙ ap (used plan.retry_key) same),
        cc,
        cc,
      )

  give_up-raises :
      (f : StepFailure) (s : Disk × W) {o : Round} {s' : Disk × W}
      → ¬ (give_up host plan ownership f s ≡ (ok o, s'))
  unfolding give_up
  give_up-raises f s h = cc

  admitted-Spent :
      (st : Rung) (f : StepFailure) (profile : String) (rest : List String) (a : RecoveryAdmission)
      (d : Disk) (now : String) (tree : Option String) (s : Disk × W) {st' : Rung} {s' : Disk × W}
      → st.fallbacks ≡ profile ∷ rest
      → admit now (fallback_request plan f tree) d ≡ (ok a, s.0)
      → (if a.admitted
            then fall_to host plan ownership st f profile rest
            else give_up host plan ownership f)
          s
        ≡ (ok (onward st'), s')
      → IsSpent st.fallbacks d st' s'.0
  unfolding fallback_request
  admitted-Spent st f profile rest a d now tree s left asked h = elim (Bool-cases a.admitted) [
    | inr e ↦ absurd (give_up-raises f s (rw e at h))
    | inl e ↦
        let (n, counted, below, next) =
          admit-admitted now (fallback_request plan f tree) d s.0 a asked e in
        let (kept, behind, active) = fall_to-used st f profile rest s (rw e at h) in
        record {
          before = n;
          counted = counted;
          below = below;
          spent = kept ∙ next;
          rungs = inr (profile, left ∙ ap (◌∷◌ profile) (sym behind), active);
        }
  ]

  ask_fallback-Spent :
      (st : Rung) (f : StepFailure) (profile : String) (rest : List String) (d : Disk)
      (s : Disk × W) {st' : Rung} {s' : Disk × W}
      → st.fallbacks ≡ profile ∷ rest
      → s.0 ≡ d
      → ask_fallback host plan ownership st f profile rest s ≡ (ok (onward st'), s')
      → IsSpent st.fallbacks d st' s'.0
  unfolding ask_fallback now_then
  ask_fallback-Spent st f profile rest d s left same h =
      let (tree, (d1, w1), p1, k1) = continue-ok (candidate_tree host plan ownership s) _ h in
      let ask = admit (host.tick w1).0 (fallback_request plan f tree) in
      let (a, s2, p2, k2) = continue-ok (on_first not_counted ask (d1, (host.tick w1).1)) _ k1 in
      admitted-Spent st f profile rest a d (host.tick w1).0 tree s2 left
        (rw (← (candidate_tree-disk host plan ownership s p1 ∙ same))
          (on_first-ok not_counted ask (d1, (host.tick w1).1) p2).0)
        k2

  next_rung-Spent :
      (st : Rung) (f : StepFailure) (again : Bool) (left : List String) (d : Disk) (s : Disk × W)
      {st' : Rung} {s' : Disk × W}
      → st.fallbacks ≡ left
      → s.0 ≡ d
      → next_rung host plan ownership st f again left s ≡ (ok (onward st'), s')
      → IsSpent st.fallbacks d st' s'.0
  unfolding next_rung
  next_rung-Spent st f false left d s e same h = absurd (give_up-raises f s h)
  next_rung-Spent st f true [] d s e same h = absurd (give_up-raises f s h)
  next_rung-Spent st f true (profile ∷ rest) d s e same h =
      let (n, p, k) = continue-reading (map_raised not_counted (used plan.retry_key s.0)) s _ h in
      elim (Bool-cases (ltb n (plan.attempts - 1))) [
        | inl b ↦ ask_fallback-Spent st f profile rest d s e same (rw b at k)
        | inr b ↦ absurd (give_up-raises f s (rw b at k))
      ]

  retryable-disk :
      (f : StepFailure) (s : Disk × W) {b : Bool} {s' : Disk × W}
      → retryable host plan ownership f s ≡ (ok b, s')
      → s' ≡ s
  unfolding retryable
  retryable-disk f s h = elim (Bool-cases (rolled_back f)) [
    | inr e ↦ sym (giving-ok (rw e at h)).1
    | inl e ↦
        let (decision, p, k) =
          continue-reading (map_raised unclassified (classify_failure f.reason false)) s _
            (rw e at h) in
        sym (giving-ok k).1
  ]

  unretried-Spent :
      (st : Rung) (f : StepFailure) (d : Disk) (s : Disk × W) {st' : Rung} {s' : Disk × W}
      → s.0 ≡ d
      → unretried host plan ownership st f s ≡ (ok (onward st'), s')
      → IsSpent st.fallbacks d st' s'.0
  unfolding unretried
  unretried-Spent st f d s same h = elim (Bool-cases (f.reason == "EXTERNAL_AUTH_REQUIRED")) [
    | inl e ↦ absurd (give_up-raises f s (rw e at h))
    | inr e ↦
        let (b, s1, p, k) = continue-ok (retryable host plan ownership f s) _ (rw e at h) in
        next_rung-Spent st f b st.fallbacks d s1 refl (ap (λ x. x.0) (retryable-disk f s p) ∙ same)
          k
  ]

  -- A retry that was granted, or none: then the disk is the one before.
  retried_or-Spent :
      (st : Rung) (r : StepRaise) (f g : StepFailure) (o : Option RecoveryAdmission) (d : Disk)
      (s : Disk × W) {st' : Rung} {s' : Disk × W}
      → IsAnswered host.git host.tick host.archive_attempt
          (retry_of plan ownership (length st.fallbacks))
          f
          d
          o
          s
      → retried_or host plan ownership st r g o s ≡ (ok (onward st'), s')
      → IsSpent st.fallbacks d st' s'.0
  unfolding retried_or retry_of
  retried_or-Spent st r f g none d s (declined e same) h =
      unretried-Spent (record st { pending_retry = none }) g d s same h
  retried_or-Spent st r f g none d s (retried a before status v e first listed exact owned granted)
        h =
      cc
  retried_or-Spent st r f g (some a) d s (declined e same) h = cc
  retried_or-Spent st r f g (some a) d s
        (retried a' before status v e first listed exact owned granted) h =
      let (made, there) = giving-ok h in
      record {
        before = granted.before;
        counted = granted.counted;
        below = omega (arith, granted.below);
        spent = ap (λ x. used plan.retry_key x.0) (sym there) ∙ granted.spent;
        rungs = inl (cc, granted.below);
      }

  after_failure-Spent :
      (st : Rung) (r : StepRaise) (d : Disk) (s : Disk × W) {st' : Rung} {s' : Disk × W}
      → s.0 ≡ d
      → after_failure host plan ownership st r s ≡ (ok (onward st'), s')
      → IsSpent st.fallbacks d st' s'.0
  unfolding after_failure
  after_failure-Spent st r d s {st' = st'} {s' = s'} same h =
      let (reason, p1, k1) =
        continue-reading (map_raised unnamed (normalize_exit_reason r.failure.reason)) s _ h in
      let f = record r.failure { reason = reason } in
      let write = host.write_artifact "failure.json" (failure_fields f) in
      let (u2, s2, p2, k2) = continue-ok (on_second escaped write s) _ k1 in
      let (u3, s3, p3, k3) =
        continue-ok (complete_pending host plan ownership st.pending_retry f s2) _ k2 in
      let ask =
        admit_step_retry host.git host.tick host.archive_attempt
          (retry_of plan ownership (length st.fallbacks)) f in
      let ((g, o), s4, p4, k4) = continue-ok (catching not_retried ask s3) _ k3 in
      let still : s3.0 ≡ d =
        complete_pending-disk host plan ownership st.pending_retry f s2 p3
        ∙ ((on_second-ok escaped write s p2).1 ∙ same) in
      retried_or-Spent st r f g o d s4
        (subst
          (λ x.
            IsAnswered host.git host.tick host.archive_attempt
              (retry_of plan ownership (length st.fallbacks)) f x o s4)
          still
          (admit_step_retry-IsAnswered host.git host.tick host.archive_attempt
            (retry_of plan ownership (length st.fallbacks)) f s3 g o s4
            (translated-ok not_retried (ask s3) p4)))
        k4

  settled-Spent :
      (st : Rung) (x : Outcome StepRaise StepExecutionOutcome) (d : Disk) (s1 s2 : Disk × W)
      {st' : Rung} {s' : Disk × W}
      → s1.0 ≡ d
      → try_attempt host plan (turn_of host plan ownership st) s1 ≡ (ok x, s2)
      → settled host plan ownership st x s2 ≡ (ok (onward st'), s')
      → IsSpent st.fallbacks d st' s'.0
  unfolding settled
  settled-Spent st (ok o) d s1 s2 same p h = cc
  settled-Spent st (raised r) d s1 s2 same p h =
      after_failure-Spent st r d s2
        (try_attempt-disk host plan (turn_of host plan ownership st) s1 p ∙ same) h

  -- A round that goes on.
  pub round-Spent :
      (st : Rung) (s : Disk × W) {st' : Rung} {s' : Disk × W}
      → round host plan ownership st s ≡ (ok (onward st'), s')
      → IsSpent st.fallbacks s.0 st' s'.0
  unfolding round
  round-Spent st s h =
      let guard : Effect LadderError W (Unit {0}) = λ w. (guarded (host.budget_exhausted w), w) in
      let (u, s1, p1, k1) = continue-ok (on_second (λ e. e) guard s) _ h in
      let numbered = record st { attempt_number = suc st.attempt_number } in
      let (x, s2, p2, k2) =
        continue-ok (try_attempt host plan (turn_of host plan ownership numbered) s1) _ k1 in
      settled-Spent numbered x s.0 s1 s2 (on_second-ok (λ e. e) guard s p1).1 p2 k2
