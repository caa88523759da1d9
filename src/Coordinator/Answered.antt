-- ===== src/Coordinator/Answered.antt =====
-- The answers of `WorkerRecovery.admit_step_retry`.
use mathlib.Core.Path.{subst}
use meta_harness.Common.{
  String, ◌≡◌, refl, sym, ap, ◌∙◌, Bool, true, false, Option, none, some, List, [], if◌then◌else◌,
  inl, inr,
}
use meta_harness.Common.Outcome.{Outcome, ok, raised, map_raised}
use meta_harness.Common.Effect.{
  Effect, continue, giving, on_second, on_second-ok, continue-ok, continue-reading, giving-ok,
}
use meta_harness.Policy.Table.{terminal}
use meta_harness.Policy.Classify.{classify_failure}
use meta_harness.Store.Disk.{Disk}
use meta_harness.Attempt.Audit.{GitFailure}
use meta_harness.Attempt.Transaction.{Git, Violation, AttemptRollback, abort, violation_code}
use meta_harness.Attempt.Rollback.{IsExact, IsOwned, abort-IsExact}
use meta_harness.Coordinator.Counters.{used}
use meta_harness.Coordinator.Admission.{RecoveryAdmission}
use meta_harness.Coordinator.Exit.{normalize_exit_reason}
use meta_harness.Coordinator.Worker.{
  known_tree, with_listed, safely, or_text, StepFailure, StepRetry, unnamed, unclassified,
  not_counted, unread, caught, step_attempt, refuse, safe_candidate_tree, safe_status, rolled_back,
  roll_back, with_status, with_trees, guarded_retry, classified_retry, admit_step_retry,
}
use meta_harness.Coordinator.Retried.{IsGranted, refuse-none, caught-ok, after_rollback-Settles}

module _ {W : Type 0} (git : Git W) (tick : W → String × W)
    (archive : String → Effect String W (Unit {0})) (q : StepRetry) where
  -- The answer of the method: no retry, and the disk is as it was; or a retry, after a rollback that
  -- left the candidate exactly at its boundary.
  pub data IsAnswered (f : StepFailure) (d : Disk) (o : Option RecoveryAdmission) (s : Disk × W)
      : Type 0 where
    declined : o ≡ none → s.0 ≡ d → IsAnswered f d o s
    retried :
        (a : RecoveryAdmission) (before : String) (status : List String) (v : W)
        → o ≡ some a
        → f.tree_before ≡ some before
        → f.status_before ≡ some status
        → IsExact git (step_attempt q before status).boundary v
        → IsOwned git (step_attempt q before status) v
        → IsGranted git tick archive q d v a s
        → IsAnswered f d o s

  refuse-IsAnswered :
      (f : StepFailure) (code : String) (tree : Option String) (d : Disk) (s : Disk × W)
      {g : StepFailure} {o : Option RecoveryAdmission} {s' : Disk × W}
      → s.0 ≡ d
      → refuse git tick archive q f code tree s ≡ (ok (g, o), s')
      → IsAnswered f d o s'
  refuse-IsAnswered f code tree d s same h =
      let (nothing, still) = refuse-none git tick archive q f code tree s h in
      declined nothing (ap (λ x. x.0) still ∙ same)

  safe_tree-refuse :
      (f : StepFailure) (code : String) (d : Disk) (s : Disk × W) {g : StepFailure}
      {o : Option RecoveryAdmission} {s' : Disk × W}
      → s.0 ≡ d
      → continue (safe_candidate_tree git tick archive s) (refuse git tick archive q f code)
        ≡ (ok (g, o), s')
      → IsAnswered f d o s'
  unfolding safe_candidate_tree
  safe_tree-refuse f code d (d0, w) same h =
      let read : Effect GitFailure W (Option String) =
        λ w. (safely (git.candidate_tree_sha w), w) in
      let (tree, s1, p, k) = continue-ok (on_second unread read (d0, w)) _ h in
      refuse-IsAnswered f code tree d s1 ((on_second-ok unread read (d0, w) p).1 ∙ same) k

  module _ (f : StepFailure) (before : String) (status : List String) (d : Disk)
      (first : f.tree_before ≡ some before) (listed : f.status_before ≡ some status) where
    rolled_back-IsAnswered :
        (outcome : Outcome Violation AttemptRollback) (d1 : Disk) (w v : W) {g : StepFailure}
        {o : Option RecoveryAdmission} {s' : Disk × W}
        → caught (abort git (step_attempt q before status) q.paths [] w) ≡ (ok outcome, v)
        → d1 ≡ d
        → rolled_back git tick archive q f before outcome (d1, v) ≡ (ok (g, o), s')
        → IsAnswered f d o s'
    unfolding rolled_back
    rolled_back-IsAnswered (ok r) d1 w v {s' = s'} undone same h =
        let (exact, owned, inside) =
          abort-IsExact git (step_attempt q before status) q.paths [] w
            (caught-ok (abort git (step_attempt q before status) q.paths [] w) undone) in
        elim (after_rollback-Settles git tick archive q
          (record f { tree_after = some before; index_tree_after = some before }) before d1 v h) [
            | inl (nothing, still) ↦ declined nothing (still ∙ same)
            | inr (a, some_a, granted_a) ↦
                retried a before status v some_a first listed exact owned
                  (subst (λ x. IsGranted git tick archive q x v a s') same granted_a)
          ]
    rolled_back-IsAnswered (raised x) d1 w v undone same h =
        safe_tree-refuse f (violation_code x) d (d1, v) same h

    roll_back-IsAnswered :
        (s : Disk × W) {g : StepFailure} {o : Option RecoveryAdmission} {s' : Disk × W}
        → s.0 ≡ d
        → roll_back git tick archive q f before status s ≡ (ok (g, o), s')
        → IsAnswered f d o s'
    unfolding roll_back
    roll_back-IsAnswered (d0, w) same h =
        let undo = λ (w : W). caught (abort git (step_attempt q before status) q.paths [] w) in
        let (outcome, (d1, v), p, k) = continue-ok (on_second unread undo (d0, w)) _ h in
        let (undone, still) = on_second-ok unread undo (d0, w) p in
        rolled_back-IsAnswered outcome d1 w v undone (still ∙ same) k

  with_listed-IsAnswered :
      (f : StepFailure) (before : String) (listed : Option (List String)) (d : Disk) (s : Disk × W)
      {g : StepFailure} {o : Option RecoveryAdmission} {s' : Disk × W}
      → f.tree_before ≡ some before
      → f.status_before ≡ listed
      → s.0 ≡ d
      → with_listed git tick archive q f before listed s ≡ (ok (g, o), s')
      → IsAnswered f d o s'
  unfolding with_listed
  with_listed-IsAnswered f before none d s first e same h =
      refuse-IsAnswered f "RESUME_REQUIRES_OPERATOR" f.tree_after d s same h
  with_listed-IsAnswered f before (some status) d s first e same h =
      roll_back-IsAnswered f before status d first e s same h

  with_status-IsAnswered :
      (f : StepFailure) (before : String) (now : Option (List String)) (d : Disk) (s : Disk × W)
      {g : StepFailure} {o : Option RecoveryAdmission} {s' : Disk × W}
      → f.tree_before ≡ some before
      → s.0 ≡ d
      → with_status git tick archive q f before now s ≡ (ok (g, o), s')
      → IsAnswered f d o s'
  unfolding with_status
  with_status-IsAnswered f before none d s first same h =
      refuse-IsAnswered f "RESUME_REQUIRES_OPERATOR" f.tree_after d s same h
  with_status-IsAnswered f before (some now) d s first same h =
      with_listed-IsAnswered f before f.status_before d s first refl same h

  with_trees-IsAnswered :
      (f : StepFailure) (before : String) (after : Option String) (d : Disk) (s : Disk × W)
      {g : StepFailure} {o : Option RecoveryAdmission} {s' : Disk × W}
      → f.tree_before ≡ some before
      → s.0 ≡ d
      → with_trees git tick archive q f before after s ≡ (ok (g, o), s')
      → IsAnswered f d o s'
  unfolding with_trees safe_status
  with_trees-IsAnswered f before none d s first same h =
      refuse-IsAnswered f "RESUME_REQUIRES_OPERATOR" none d s same h
  with_trees-IsAnswered f before (some after) d (d0, w) first same h =
      let read : Effect GitFailure W (Option (List String)) =
        λ w. (safely (git.status_porcelain w), w) in
      let (now, s1, p, k) = continue-ok (on_second unread read (d0, w)) _ h in
      with_status-IsAnswered f before now d s1 first ((on_second-ok unread read (d0, w) p).1 ∙ same)
        k

  -- The first guard: a known tree after the attempt, or the one that can be read.
  known-IsAnswered :
      (f : StepFailure) (known : Option String) (d : Disk) (s : Disk × W) {g : StepFailure}
      {o : Option RecoveryAdmission} {s' : Disk × W}
      → s.0 ≡ d
      → continue
          (known_tree git tick archive known s)
          (refuse git tick archive q f "RESUME_REQUIRES_OPERATOR")
        ≡ (ok (g, o), s')
      → IsAnswered f d o s'
  unfolding known_tree
  known-IsAnswered f none d s same h = safe_tree-refuse f "RESUME_REQUIRES_OPERATOR" d s same h
  known-IsAnswered f (some t) d s same h =
      refuse-IsAnswered f "RESUME_REQUIRES_OPERATOR" (some t) d s same h

  guarded_retry-IsAnswered :
      (f : StepFailure) (before : Option String) (d : Disk) (s : Disk × W) {g : StepFailure}
      {o : Option RecoveryAdmission} {s' : Disk × W}
      → f.tree_before ≡ before
      → s.0 ≡ d
      → guarded_retry git tick archive q f before s ≡ (ok (g, o), s')
      → IsAnswered f d o s'
  unfolding guarded_retry
  guarded_retry-IsAnswered f none d s first same h =
      known-IsAnswered f (or_text f.tree_after none) d s same h
  guarded_retry-IsAnswered f (some before) d s first same h =
      with_trees-IsAnswered f before f.tree_after d s first same h

  classified-IsAnswered :
      (stops : Bool) (f : StepFailure) (d : Disk) (s : Disk × W) {g : StepFailure}
      {o : Option RecoveryAdmission} {s' : Disk × W}
      → s.0 ≡ d
      → (if stops then giving (ok (f, none)) else guarded_retry git tick archive q f f.tree_before)
          s
        ≡ (ok (g, o), s')
      → IsAnswered f d o s'
  classified-IsAnswered true f d s same h =
      let (made, still) = giving-ok h in
      declined (sym (ap (λ x. x.1) made)) (ap (λ x. x.0) (sym still) ∙ same)
  classified-IsAnswered false f d s same h =
      guarded_retry-IsAnswered f f.tree_before d s refl same h

  reasoned :
      (f : StepFailure) (reason : String) (d : Disk) (o : Option RecoveryAdmission) (s : Disk × W)
      → IsAnswered (record f { reason = reason }) d o s
      → IsAnswered f d o s
  reasoned f reason d o s (declined nothing same) = declined nothing same
  reasoned f reason d o s (retried a before status v some_a first listed exact owned granted_a) =
      retried a before status v some_a first listed exact owned granted_a

  -- When `admit_step_retry` returns, it gave no retry and left the durable state as it was, or it gave
  -- one: then the candidate was rolled back exactly to the boundary of the failed attempt, with Git
  -- ownership unviolated, before one unit of the step's budget, which was not used up, was consumed and
  -- the artifacts of the attempt were archived.
  pub admit_step_retry-IsAnswered :
      (f : StepFailure) (s : Disk × W) (g : StepFailure) (o : Option RecoveryAdmission)
      (s' : Disk × W)
      → admit_step_retry git tick archive q f s ≡ (ok (g, o), s')
      → IsAnswered f s.0 o s'
  unfolding admit_step_retry classified_retry
  admit_step_retry-IsAnswered f (d, w) g o s' h =
      let (reason, p1, k1) =
        continue-reading (map_raised unnamed (normalize_exit_reason f.reason)) (d, w) _ h in
      let (n, p2, k2) =
        continue-reading (map_raised not_counted (used q.retry_key d)) (d, w) _ k1 in
      let (decision, p3, k3) =
        continue-reading (map_raised unclassified (classify_failure reason false)) (d, w) _ k2 in
      reasoned f reason d o s' (
        classified-IsAnswered (terminal decision.strategy) (record f { reason = reason }) d (d, w)
          refl k3)
