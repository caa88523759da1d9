-- ===== src/Steps/Kept.antt =====
-- orchestration/step_execution.py: the durable state behind the parts of an attempt.

use meta_harness.Common.{
  String, ◌≡◌, refl, sym, ap, ◌∙◌, false, Option, none, some, inl, inr, Bool-cases,
}
use meta_harness.Common.Outcome.{Outcome, ok, raised}
use meta_harness.Common.Effect.{
  Effect, catching, on_first, on_second, on_first-ok, on_second-ok, continue-ok, giving-ok,
  translated-ok,
}
use meta_harness.Json.{Fields, has_key}
use meta_harness.Store.Disk.{Disk}
use meta_harness.Store.Writes.{update_metadata}
use meta_harness.Attempt.Ownership.{GitOwnership}
use meta_harness.Attempt.Audit.{GitFailure}
use meta_harness.Coordinator.Counters.{used}
use meta_harness.Coordinator.Counting.{used-update_metadata}
use meta_harness.Coordinator.Admission.{RecoveryAdmission}
use meta_harness.Coordinator.Worker.{
  safely, unread, StepFailure, step_fields, or_text, safe_candidate_tree, known_tree,
}
use meta_harness.Steps.Attempt.{
  StepExecutionOutcome, StepRaise, Turn, LadderHost, escaped, not_retried, not_stored, StepPlan,
  now_then, store_fields, gated, note_warnings, worker_result, try_attempt,
}
use meta_harness.Steps.Ladder.{candidate_tree, complete_pending}

pub step_fields-counters : (id : String) → has_key (step_fields id) "recovery_counters" ≡ false
unfolding has_key
step_fields-counters id = refl

module _ {W : Type 0} (host : LadderHost W) where
  pub store_fields-used :
      (fields : Fields) (s : Disk × W) (key : String) {u : Unit {0}} {s' : Disk × W}
      → has_key fields "recovery_counters" ≡ false
      → store_fields host fields s ≡ (ok u, s')
      → used key s'.0 ≡ used key s.0
  unfolding store_fields now_then
  store_fields-used fields (d, w) key lacks h =
      let write = update_metadata (host.tick w).0 none fields in
      let (x, s1, p, k) = continue-ok (on_first not_stored write (d, (host.tick w).1)) _ h in
      ap (λ q. used key q.1.0) (sym k)
      ∙ used-update_metadata (host.tick w).0 fields d s1.0 x key lacks
          (on_first-ok not_stored write (d, (host.tick w).1) p).0

  -- A red gate and a failed worker leave the durable state alone.
  gated-disk :
      (step_id profile : String) (x : Outcome StepRaise StepExecutionOutcome) (s : Disk × W)
      {r : StepRaise} {s' : Disk × W}
      → gated host step_id profile x s ≡ (ok (raised r), s')
      → s'.0 ≡ s.0
  unfolding gated
  gated-disk step_id profile (raised f) s h = ap (λ q. q.0) (sym (giving-ok h).1)
  gated-disk step_id profile (ok o) s h =
      let gate = host.run_per_step_gate o.changed_paths in
      let (verdict, s1, p, k) = continue-ok (on_second escaped gate s) _ h in
      let same = (on_second-ok escaped gate s p).1 in
      elim (Bool-cases verdict.passed) [
        | inl e ↦
            let (u, s2, p2, k2) =
              continue-ok (note_warnings host verdict.warnings s1) _ (rw e at k) in
            cc ((giving-ok k2).0)
        | inr e ↦ ap (λ q. q.0) (sym (giving-ok (rw e at k)).1) ∙ same
      ]

  pub try_attempt-disk :
      (plan : StepPlan) (turn : Turn) (s : Disk × W) {r : StepRaise} {s' : Disk × W}
      → try_attempt host plan turn s ≡ (ok (raised r), s')
      → s'.0 ≡ s.0
  unfolding try_attempt
  try_attempt-disk plan turn s h =
      let write = host.write_artifact "step_authority.json" plan.authority in
      let (u, s1, p1, k1) = continue-ok (on_second escaped write s) _ h in
      let work = λ (w : W). worker_result (host.run_attempt turn w) in
      let (x, s2, p2, k2) = continue-ok (on_second (λ e. e) work s1) _ k1 in
      gated-disk plan.step_id turn.profile_id x s2 k2
      ∙ ((on_second-ok (λ e. e) work s1 p2).1 ∙ (on_second-ok escaped write s p1).1)

  module _ (plan : StepPlan) (ownership : GitOwnership) where
    pub candidate_tree-disk :
        (s : Disk × W) {t : Option String} {s' : Disk × W}
        → candidate_tree host plan ownership s ≡ (ok t, s')
        → s'.0 ≡ s.0
    unfolding candidate_tree safe_candidate_tree
    candidate_tree-disk s h =
        let read : Effect GitFailure W (Option String) =
          λ w. (safely (host.git.candidate_tree_sha w), w) in
        (on_second-ok unread read s (translated-ok not_retried (on_second unread read s) h)).1

    pub known_tree-disk :
        (known : Option String) (s : Disk × W) {t : Option String} {s' : Disk × W}
        → known_tree host.git host.tick host.archive_attempt known s ≡ (ok t, s')
        → s'.0 ≡ s.0
    unfolding known_tree safe_candidate_tree
    known_tree-disk none s h =
        let read : Effect GitFailure W (Option String) =
          λ w. (safely (host.git.candidate_tree_sha w), w) in
        (on_second-ok unread read s h).1
    known_tree-disk (some t) s h = ap (λ q. q.0) (sym (giving-ok h).1)

    pub complete_pending-disk :
        (pending : Option RecoveryAdmission) (f : StepFailure) (s : Disk × W) {u : Unit {0}}
        {s' : Disk × W}
        → complete_pending host plan ownership pending f s ≡ (ok u, s')
        → s'.0 ≡ s.0
    unfolding complete_pending
    complete_pending-disk none f s h = ap (λ q. q.0) (sym (giving-ok h).1)
    complete_pending-disk (some a) f s h =
        let tree = known_tree host.git host.tick host.archive_attempt (or_text f.tree_after none) in
        let (t, s1, p, k) = continue-ok (catching not_retried tree s) _ h in
        ap (λ q. q.0) (sym (giving-ok k).1)
        ∙ known_tree-disk (or_text f.tree_after none) s (translated-ok not_retried (tree s) p)
