-- ===== src/Coordinator/Retried.antt =====
-- What a retry that `WorkerRecovery.admit_step_retry` grants has consumed, and that a refused one
-- leaves the disk alone.
use mathlib.Core.Path.{subst}
use meta_harness.Common.{
  ℕ, suc, ◌<◌, String, ◌≡◌, refl, sym, ap, ◌∙◌, Bool, true, false, Option, none, some, ◌==◌,
  if◌then◌else◌, Bool-cases, inl, ◌⊎◌, inr,
}
use meta_harness.Common.Outcome.{Outcome, ok, raised, map_raised}
use meta_harness.Common.Effect.{
  Effect, giving, on_first, on_second, on_first-ok, on_second-ok, continue-ok, continue-reading,
  giving-ok,
}
use meta_harness.Json.{has_key}
use meta_harness.Policy.Classify.{classify_failure}
use meta_harness.Store.Disk.{Disk}
use meta_harness.Store.Writes.{update_metadata}
use meta_harness.Attempt.Transaction.{Git, AttemptError, violation, uncaught}
use meta_harness.Coordinator.Counters.{store_error, used}
use meta_harness.Coordinator.Counting.{used-update_metadata}
use meta_harness.Coordinator.Admission.{RecoveryAdmission, admit}
use meta_harness.Coordinator.Bounded.{admit-admitted, admit-refused}
use meta_harness.Coordinator.Worker.{
  StepFailure, StepRetry, unclassified, not_counted, not_archived, caught, retry_request,
  step_fields, refuse, granted, admitted_or, after_rollback,
}

step_fields-counters : (id : String) → has_key (step_fields id) "recovery_counters" ≡ false
unfolding has_key
step_fields-counters id = refl

pub caught-ok :
    {A W : Type 0} (p : Outcome AttemptError A × W) {a : A} {w : W}
    → caught p ≡ (ok (ok a), w)
    → p ≡ (ok a, w)
unfolding caught
caught-ok (ok b, w) h = cc
caught-ok (raised (violation v), w) h = cc
caught-ok (raised (uncaught e), w) h = cc

module _ {W : Type 0} (git : Git W) (tick : W → String × W)
    (archive : String → Effect String W (Unit {0})) (q : StepRetry) where
  -- What a granted retry did, from the world that the rollback left.
  pub record IsGranted (d : Disk) (v : W) (a : RecoveryAdmission) (s : Disk × W) : Type 0 where
    pub before : ℕ
    pub counted : used q.retry_key d ≡ ok before
    pub below : before < q.retry_budget
    pub spent : used q.retry_key s.0 ≡ ok (suc before)
    pub admitted : a.admitted ≡ true
    pub archived : archive q.artifact_dir (tick (tick v).1).1 ≡ (ok tt, s.1)

  pub refuse-none :
      (f : StepFailure) (code : String) (tree : Option String) (s : Disk × W) {g : StepFailure}
      {o : Option RecoveryAdmission} {s' : Disk × W}
      → refuse git tick archive q f code tree s ≡ (ok (g, o), s')
      → (o ≡ none) × (s' ≡ s)
  unfolding refuse
  refuse-none f code tree s h =
      let (decision, p, k) =
        continue-reading (map_raised unclassified (classify_failure code true)) s _ h in
      (sym (ap (λ x. x.1) (giving-ok k).0), sym (giving-ok k).1)

  granted-ok :
      (f : StepFailure) (a : RecoveryAdmission) (d : Disk) (w : W) {g : StepFailure}
      {o : Option RecoveryAdmission} {s' : Disk × W}
      → granted git tick archive q f a (d, w) ≡ (ok (g, o), s')
      → (o ≡ some a)
        × (used q.retry_key s'.0 ≡ used q.retry_key d)
        × (archive q.artifact_dir (tick w).1 ≡ (ok tt, s'.1))
  unfolding granted
  granted-ok f a d w h =
      let write = update_metadata (tick w).0 none (step_fields q.step_id) in
      let (x, (d1, w1), p1, k1) =
        continue-ok (on_first (λ e. not_counted (store_error e)) write (d, (tick w).1)) _ h in
      let (wrote, still) =
        on_first-ok (λ e. not_counted (store_error e)) write (d, (tick w).1) p1 in
      let (u, (d2, w2), p2, k2) =
        continue-ok (on_second not_archived (archive q.artifact_dir) (d1, w1)) _ k1 in
      let (moved, same) = on_second-ok not_archived (archive q.artifact_dir) (d1, w1) p2 in
      let (made, there) = giving-ok k2 in
      (
        sym (ap (λ y. y.1) made),
        ap (λ y. used q.retry_key y.0) (sym there)
            ∙ (ap (used q.retry_key) same
                ∙ used-update_metadata (tick w).0 (step_fields q.step_id) d d1 x q.retry_key
                    (step_fields-counters q.step_id) wrote),
        rw (← there) (rw (← still) moved),
      )

  abbrev pub Settles : Disk → W → Option RecoveryAdmission → Disk × W → Type 0
  Settles d v o s =
      ((o ≡ none) × (s.0 ≡ d)) ⊎ ((a : RecoveryAdmission) × (o ≡ some a) × IsGranted d v a s)

  choice-Settles :
      (admitted : Bool) (f : StepFailure) (before : String) (a : RecoveryAdmission) (d d1 : Disk)
      (v : W) {g : StepFailure} {o : Option RecoveryAdmission} {s' : Disk × W}
      → a.admitted ≡ admitted
      → admit (tick v).0 (retry_request q f before) d ≡ (ok a, d1)
      → (if admitted
            then granted git tick archive q f a
            else giving (ok (record f { step_dir = some q.artifact_dir }, none)))
          (d1, (tick v).1)
        ≡ (ok (g, o), s')
      → Settles d v o s'
  unfolding retry_request
  choice-Settles false f before a d d1 v said asked h =
      let (made, there) = giving-ok h in
      inl (
        sym (ap (λ x. x.1) made),
        ap (λ x. x.0) (sym there)
            ∙ admit-refused (tick v).0 (retry_request q f before) d d1 a asked said,
      )
  choice-Settles true f before a d d1 v said asked h =
      let (some_a, kept, moved) = granted-ok f a d1 (tick v).1 h in
      let (n, counted, below, spent) =
        admit-admitted (tick v).0 (retry_request q f before) d d1 a asked said in
      inr (
        a,
        some_a,
        record {
          before = n;
          counted = counted;
          below = below;
          spent = kept ∙ spent;
          admitted = said;
          archived = moved;
        },
      )

  admitted_or-Settles :
      (f : StepFailure) (before : String) (a : RecoveryAdmission) (d d1 : Disk) (v w : W)
      {g : StepFailure} {o : Option RecoveryAdmission} {s' : Disk × W}
      → admit (tick v).0 (retry_request q f before) d ≡ (ok a, d1)
      → w ≡ (tick v).1
      → admitted_or git tick archive q f a (d1, w) ≡ (ok (g, o), s')
      → Settles d v o s'
  unfolding admitted_or
  admitted_or-Settles f before a d d1 v w {g = g} {o = o} {s' = s'} asked same h =
      choice-Settles a.admitted f before a d d1 v refl asked
        (subst (λ z. admitted_or git tick archive q f a (d1, z) ≡ (ok (g, o), s')) same h)

  pub after_rollback-Settles :
      (f : StepFailure) (before : String) (d : Disk) (v : W) {g : StepFailure}
      {o : Option RecoveryAdmission} {s' : Disk × W}
      → after_rollback git tick archive q f before (d, v) ≡ (ok (g, o), s')
      → Settles d v o s'
  unfolding after_rollback
  after_rollback-Settles f before d v h =
      elim (Bool-cases (f.reason == "AGENT_CONTRACT_MISMATCH")) [
        | inl e ↦
            let (made, there) = giving-ok (rw e at h) in
            inl (sym (ap (λ x. x.1) made), ap (λ x. x.0) (sym there))
        | inr e ↦ elim (Bool-cases (f.reason == "EXTERNAL_AUTH_REQUIRED")) [
          | inl e' ↦
              let (made, there) = giving-ok (rw (e, e') at h) in
              inl (sym (ap (λ x. x.1) made), ap (λ x. x.0) (sym there))
          | inr e' ↦
              let ask = admit (tick v).0 (retry_request q f before) in
              let (a, (d1, w1), p, k) =
                continue-ok (on_first not_counted ask (d, (tick v).1)) _ (rw (e, e') at h) in
              let (asked, still) = on_first-ok not_counted ask (d, (tick v).1) p in
              admitted_or-Settles f before a d d1 v w1 asked still k
        ]
      ]
