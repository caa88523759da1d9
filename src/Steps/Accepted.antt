-- ===== src/Steps/Accepted.antt =====
-- orchestration/step_execution.py: the result of `_accept_v2_step_tree`.
use mathlib.Core.Path.{subst}
use meta_harness.Common.{
  String, ◌≡◌, sym, ap, ◌∙◌, Bool, true, false, not, Option, none, some, ◌==◌, inl, inr, eq_iff,
  if◌then◌else◌, Bool-cases,
}
use meta_harness.Common.Outcome.{Outcome, ok, raised, map_raised, map_raised-eq-ok}
use meta_harness.Common.Effect.{
  ◌>>=◌, continue, giving, continue-ok, continue-reading, continue-refusing, giving-ok,
}
use meta_harness.Common.Names.{is_nil, equal-test}
use meta_harness.Json.{str, obj, arr, Fields, end, field, get}
use meta_harness.Store.Disk.{load}
use meta_harness.Store.Writes.{update_metadata}
use meta_harness.Attempt.Ownership.{status_has_unstaged_or_untracked}
use meta_harness.Commit.Safety.{
  DeferredVerification, CommitSafetyResult, commit_safety_gate, StepVerification,
}
use meta_harness.Commit.Gated.{IsSafe, commit_safety_gate-IsSafe}
use meta_harness.Steps.Finalize.{
  RunDir, AcceptError, head_moved, not_the_current_tree, refused, git_failed, not_written,
  not_stored, listed, with_last, on_disk, finalize_accepted_step,
}
use meta_harness.Steps.Recorded.{on_disk-ok, IsRecorded, finalize_accepted_step-IsRecorded}
use meta_harness.Steps.Authority.{
  AcceptHost, Acceptance, gate_request, unchanged_record, expected_fields,
}
use meta_harness.Steps.Accept.{
  committed, read_git, on_run, on_world, store_fields, accept_no_change, accept_unchanged,
  accept_commit, verified, accept_v2_step_tree,
}

on_run-parts :
    {A W : Type 0} (p : Outcome AcceptError A × RunDir) (w : W) {a : A} {s' : RunDir × W}
    → ◌≡◌ {A = Outcome AcceptError A × (RunDir × W)} (p.0, (p.1, w)) (ok a, s')
    → (p ≡ (ok a, s'.0)) × (s'.1 ≡ w)
on_run-parts (o, r) w h = (cc, cc)

on_world-parts :
    {A E W : Type 0} (f : E → AcceptError) (p : Outcome E A × W) (r : RunDir) {a : A}
    {s' : RunDir × W}
    → ◌≡◌ {A = Outcome AcceptError A × (RunDir × W)} (map_raised f p.0, (r, p.1)) (ok a, s')
    → (p ≡ (ok a, s'.1)) × (s'.0 ≡ r)
on_world-parts f (ok b, w) r h = (cc, cc)
on_world-parts f (raised e, w) r h = cc

module _ {W : Type 0} (host : AcceptHost W) (q : Acceptance) where
  -- A commit that crossed the gate, from the world and the directory before.
  pub record IsCommitted (s : RunDir × W) (sha : String) (s' : RunDir × W) : Type 0 where
    pub verification : StepVerification
    pub verified_as : verified host q ≡ ok verification
    pub gate : CommitSafetyResult
    pub safe : IsSafe host.git host.resolve_tree (gate_request q verification) s.1 gate
    pub diffed : W
    pub diff_written : host.write_diff s.1 ≡ (ok tt, diffed)
    pub made :
        host.commit_step_tree q.outcome.tree_after q.parent_sha q.authority.step_id
          q.authority.title diffed
        ≡ (ok sha, s'.1)
    pub recorded : IsRecorded (committed host q verification gate sha) s'.0

  -- The answer of an acceptance: no commit of an unchanged tree, or the commit of a changed one.
  pub data IsAccepted (s : RunDir × W) (o : Option String) (s' : RunDir × W) : Type 0 where
    unchanged :
        o ≡ none
        → q.outcome.tree_after ≡ q.outcome.tree_before
        → s'.1 ≡ s.1
        → s'.0.accepted_chain ≡ s.0.accepted_chain
        → IsAccepted s o s'
    crossed :
        (sha : String)
        → o ≡ some sha
        → (q.outcome.tree_after == q.outcome.tree_before) ≡ false
        → IsCommitted s sha s'
        → IsAccepted s o s'

  store_fields-ok :
      (fields : Fields) (s : RunDir × W) {u : Unit {0}} {s' : RunDir × W}
      → store_fields host fields s ≡ (ok u, s')
      → (s'.1 ≡ s.1) × (s'.0.accepted_chain ≡ s.0.accepted_chain)
  unfolding store_fields on_run
  store_fields-ok fields (r, w) h =
      let write = on_disk (update_metadata (host.now w) none fields) in
      let (x, s1, p, k) = continue-ok (on_run host write (r, w)) _ h in
      let (wrote, still) = on_run-parts (write r) w p in
      let there : s1 ≡ _ = (giving-ok k).1 in
      (
        ap (λ x. x.1) (sym there) ∙ still,
        ap (λ x. x.0.accepted_chain) (sym there)
            ∙ (on_disk-ok (update_metadata (host.now w) none fields) r wrote).1,
      )

  stored-IsAccepted :
      (fields : Fields) (s : RunDir × W) {o : Option String} {s' : RunDir × W}
      → q.outcome.tree_after ≡ q.outcome.tree_before
      → continue (store_fields host fields s) (λ _. giving (ok none)) ≡ (ok o, s')
      → IsAccepted s o s'
  stored-IsAccepted fields s same h =
      let (u, s1, p, k) = continue-ok (store_fields host fields s) _ h in
      let (made, there) = giving-ok k in
      let (world, chain) = store_fields-ok fields s p in
      unchanged (sym made) same (ap (λ x. x.1) (sym there) ∙ world)
        (ap (λ x. x.0.accepted_chain) (sym there) ∙ chain)

  accept_no_change-IsAccepted :
      (s : RunDir × W) {o : Option String} {s' : RunDir × W}
      → accept_no_change host q s ≡ (ok o, s')
      → IsAccepted s o s'
  unfolding accept_no_change read_git
  accept_no_change-IsAccepted (r, w) h =
      let (t1, k1) =
        continue-refusing (not (q.outcome.tree_after == q.outcome.tree_before)) not_the_current_tree
          (r, w) _ h in
      let (tree, p2, k2) =
        continue-reading (map_raised git_failed (host.git.candidate_tree_sha w)) (r, w) _ k1 in
      let (t3, k3) =
        continue-refusing (not (tree == q.outcome.tree_after)) not_the_current_tree (r, w) _ k2 in
      let (index, p4, k4) =
        continue-reading (map_raised git_failed (host.git.index_tree_sha w)) (r, w) _ k3 in
      let (t5, k5) =
        continue-refusing (not (index == q.outcome.tree_after)) not_the_current_tree (r, w) _ k4 in
      let (status, p6, k6) =
        continue-reading (map_raised git_failed (host.git.status_porcelain w)) (r, w) _ k5 in
      let (t7, k7) =
        continue-refusing (not (is_nil (status_has_unstaged_or_untracked status)))
          not_the_current_tree (r, w) _ k6 in
      let (parents, p8, k8) =
        continue-reading (map_raised git_failed (host.commit_parents q.parent_sha w)) (r, w) _ k7 in
      stored-IsAccepted
        (expected_fields q parents (field "no_change_step" (str q.authority.step_id) end)) (r, w)
        (equal-test _ _ t1) k8

  accept_unchanged-IsAccepted :
      (d : Option DeferredVerification) (s : RunDir × W) {o : Option String} {s' : RunDir × W}
      → q.outcome.tree_after ≡ q.outcome.tree_before
      → accept_unchanged host q d s ≡ (ok o, s')
      → IsAccepted s o s'
  unfolding accept_unchanged read_git
  accept_unchanged-IsAccepted none s same h = cc
  accept_unchanged-IsAccepted (some d) (r, w) same h =
      let (state, p1, k1) =
        continue-reading (map_raised not_stored (load r.disk.state_file)) (r, w) _ h in
      let (records, p2, k2) =
        continue-reading (listed (get state "deferred_verifications")) (r, w) _ k1 in
      let (parents, p3, k3) =
        continue-reading (map_raised git_failed (host.commit_parents q.parent_sha w)) (r, w) _ k2 in
      stored-IsAccepted
        (field "deferred_verifications" (arr (with_last records (obj (unchanged_record q d))))
          (expected_fields q parents end))
        (r, w) same k3

  accept_commit-IsAccepted :
      (v : StepVerification) (s : RunDir × W) {o : Option String} {s' : RunDir × W}
      → (q.outcome.tree_after == q.outcome.tree_before) ≡ false
      → verified host q ≡ ok v
      → accept_commit host q v s ≡ (ok o, s')
      → IsAccepted s o s'
  unfolding accept_commit on_world on_run
  accept_commit-IsAccepted v (r, w) {s' = s'} moved read h =
      let ask = commit_safety_gate host.git host.resolve_tree (gate_request q v) w in
      let (gate, p1, k1) = continue-reading (map_raised refused ask) (r, w) _ h in
      let (u2, (r2, w2), p2, k2) =
        continue-ok (on_world host not_written host.write_diff (r, w)) _ k1 in
      let commit =
        host.commit_step_tree gate.tree_sha gate.parent_sha q.authority.step_id q.authority.title in
      let (sha, (r3, w3), p3, k3) = continue-ok (on_world host git_failed commit (r2, w2)) _ k2 in
      let note = finalize_accepted_step host.fits (host.now w3) (committed host q v gate sha) in
      let (u4, (r4, w4), p4, k4) = continue-ok (on_run host note (r3, w3)) _ k3 in
      let (diffed, same2) = on_world-parts not_written (host.write_diff w) r p2 in
      let (made, same3) = on_world-parts git_failed (commit w2) r2 p3 in
      let (noted, same4) = on_run-parts (note r3) w3 p4 in
      let (some_sha, there) = giving-ok k4 in
      let safe =
        commit_safety_gate-IsSafe host.git host.resolve_tree (gate_request q v) w
          (map_raised-eq-ok refused ask p1) in
      crossed sha (sym some_sha) moved (
        subst (IsCommitted (r, w) sha) there (record {
          verification = v;
          verified_as = read;
          gate = gate;
          safe = safe;
          diffed = w2;
          diff_written = diffed;
          made =
              ap
                (λ t. host.commit_step_tree t q.parent_sha q.authority.step_id q.authority.title w2)
                (sym safe.same_tree)
              ∙ (ap
                    (λ t.
                      host.commit_step_tree gate.tree_sha t q.authority.step_id q.authority.title
                        w2)
                    (sym safe.same_parent)
                  ∙ (made ∙ ap (λ x. (ok sha, x)) (sym same4)));
          recorded =
              finalize_accepted_step-IsRecorded host.fits (host.now w3)
                (committed host q v gate sha) r3 r4 noted;
        }))

  verified-IsAccepted :
      (s : RunDir × W) {o : Option String} {s' : RunDir × W}
      → (giving (verified host q) >>= λ v.
            if q.outcome.tree_after == q.outcome.tree_before
            then accept_unchanged host q v.deferred
            else accept_commit host q v)
          s
        ≡ (ok o, s')
      → IsAccepted s o s'
  verified-IsAccepted (r, w) h =
      let (v, p, k) = continue-reading (verified host q) (r, w) _ h in
      elim (Bool-cases (q.outcome.tree_after == q.outcome.tree_before)) [
        | inl same ↦
            accept_unchanged-IsAccepted v.deferred (r, w)
              ((eq_iff q.outcome.tree_after q.outcome.tree_before).0 same) (rw same at k)
        | inr moved ↦ accept_commit-IsAccepted v (r, w) moved p (rw moved at k)
      ]

  chosen-IsAccepted :
      (no_change : Bool) (s : RunDir × W) {o : Option String} {s' : RunDir × W}
      → (if no_change
            then accept_no_change host q
            else (giving (verified host q) >>= λ v.
                if q.outcome.tree_after == q.outcome.tree_before
                then accept_unchanged host q v.deferred
                else accept_commit host q v))
          s
        ≡ (ok o, s')
      → IsAccepted s o s'
  chosen-IsAccepted true s h = accept_no_change-IsAccepted s h
  chosen-IsAccepted false s h = verified-IsAccepted s h

  -- When `_accept_v2_step_tree` returns a commit, the tree had changed and the commit gate returned in the
  -- world before: nothing that it establishes is missing. The commit is that of the step's tree on the
  -- parent, made behind the written diff, and it is recorded once. When it returns none, the tree is the
  -- one before, the repository is as it was, and so is the chain of accepted commits.
  pub accept_v2_step_tree-IsAccepted :
      (s : RunDir × W) (o : Option String) (s' : RunDir × W)
      → accept_v2_step_tree host q s ≡ (ok o, s')
      → IsAccepted s o s'
  unfolding accept_v2_step_tree read_git
  accept_v2_step_tree-IsAccepted (r, w) o s' h =
      let (head, p1, k1) =
        continue-reading (map_raised git_failed (host.git.current_head w)) (r, w) _ h in
      let (t2, k2) = continue-refusing (not (head == q.parent_sha)) head_moved (r, w) _ k1 in
      chosen-IsAccepted q.outcome.no_change (r, w) k2
