-- ===== src/Attempt/Rollback.antt =====
-- What a rollback that did not raise proves of the repository it leaves.
use meta_harness.Common.{String, ◌≡◌, sym, ap, ◌∙◌, not, List, [], ◌++◌, ◌==◌, arith}
use meta_harness.Common.Outcome.{ok}
use meta_harness.Common.Names.{minus, is_nil, texts_eq, texts_eq_lem, nil-test, equal-test}
use meta_harness.Attempt.Ownership.{
  GitOwnership, ownership_violations, status_has_unstaged_or_untracked,
}
use meta_harness.Attempt.Audit.{git_error}
use meta_harness.Common.Effect.{
  ◌>>◌, catching, continue-ok, continue-reading, continue-refusing, translated-ok, giving-ok,
  refusing-ok,
}
use meta_harness.Attempt.Transaction.{
  Git, ownership_unreadable, on_git_error, on_git_or_os_error, rollback_not_exact, AttemptBoundary,
  Attempt, AttemptRollback, git_ownership, audit_ownership, prove_exact, put_back, rollback, freeze,
  enforce_scope, scan_if, abort, discard,
}

module _ {W : Type 0} (git : Git W) where
  -- The candidate and the index are the boundary's tree, and the status is its clean status.
  pub record IsExact (b : AttemptBoundary) (w : W) : Type 0 where
    pub candidate_read : git.candidate_tree_sha w ≡ ok b.tree
    pub index_read : git.index_tree_sha w ≡ ok b.tree
    pub status_read : git.status_porcelain w ≡ ok b.status
    pub staged : status_has_unstaged_or_untracked b.status ≡ []

  -- Git ownership can be read, and it does not violate that of the attempt.
  pub record IsOwned (t : Attempt) (w : W) : Type 0 where
    pub owned : GitOwnership
    pub owned_read : git_ownership git w ≡ (ok owned, w)
    pub unviolated : ownership_violations t.boundary.ownership owned t.branch_ref t.base_sha ≡ []

  git_ownership-world :
      (w : W) {o : GitOwnership} {w' : W} → git_ownership git w ≡ (ok o, w') → w ≡ w'
  unfolding git_ownership
  git_ownership-world w h =
      let (a1, p1, k1) = continue-reading (git.symbolic_head w) w _ h in
      let (a2, p2, k2) = continue-reading (git.current_head w) w _ k1 in
      let (a3, p3, k3) = continue-reading (git.local_branches w) w _ k2 in
      let (a4, p4, k4) = continue-reading (git.registered_worktrees w) w _ k3 in
      let (a5, p5, k5) = continue-reading (git.all_refs w) w _ k4 in (giving-ok k5).1

  audit_ownership-IsOwned :
      (t : Attempt) (w : W) {u : Unit {0}} {w' : W}
      → audit_ownership git t w ≡ (ok u, w')
      → (w ≡ w') × IsOwned t w
  unfolding audit_ownership
  audit_ownership-IsOwned t w h =
      let (o, w1, p, k) =
        continue-ok (catching (on_git_error ownership_unreadable) (git_ownership git) w) _ h in
      let q = translated-ok (on_git_error ownership_unreadable) (git_ownership git w) p in
      let still = git_ownership-world w q in
      let (b, e) = refusing-ok (not (is_nil _)) _ k in
      (
        still ∙ e,
        record {
          owned = o;
          owned_read = q ∙ ap (λ v. (ok o, v)) (sym still);
          unviolated = nil-test _ b;
        },
      )

  prove_exact-IsExact :
      (b : AttemptBoundary) (w : W) {u : Unit {0}} {w' : W}
      → prove_exact git b w ≡ (ok u, w')
      → (w ≡ w') × IsExact b w
  unfolding prove_exact
  prove_exact-IsExact b w h =
      let (status, p1, k1) = continue-reading (git.status_porcelain w) w _ h in
      let (tree, p2, k2) = continue-reading (git.candidate_tree_sha w) w _ k1 in
      let (t3, k3) = continue-refusing (not (tree == b.tree)) git_error w _ k2 in
      let (index, p4, k4) = continue-reading (git.index_tree_sha w) w _ k3 in
      let (t5, k5) = continue-refusing (not (index == b.tree)) git_error w _ k4 in
      let (t6, k6) = continue-refusing (not (texts_eq status b.status)) git_error w _ k5 in
      let (t7, e) =
        refusing-ok (not (is_nil (status_has_unstaged_or_untracked status))) git_error k6 in
      let same = texts_eq_lem status b.status (ground arith) in
      (
        e,
        record {
          candidate_read = p2 ∙ ap ok (equal-test tree b.tree t3);
          index_read = p4 ∙ ap ok (equal-test index b.tree t5);
          status_read = p1 ∙ ap ok same;
          staged = rw (← same) (nil-test _ t7);
        },
      )

  pub rollback-IsExact :
      (t : Attempt) (changed : List String) (w : W) {u : Unit {0}} {w' : W}
      → rollback git t changed w ≡ (ok u, w')
      → IsExact t.boundary w' × IsOwned t w'
  unfolding rollback
  rollback-IsExact t changed w h =
      let (u1, w1, p, k) =
        continue-ok
          (catching (on_git_or_os_error rollback_not_exact)
            (put_back git t.boundary.tree changed >> prove_exact git t.boundary) w)
          _ h in
      let q =
        translated-ok (on_git_or_os_error rollback_not_exact)
          ((put_back git t.boundary.tree changed >> prove_exact git t.boundary) w) p in
      let (u2, w2, done, proved) = continue-ok (put_back git t.boundary.tree changed w) _ q in
      let (stays, exact) = prove_exact-IsExact t.boundary w2 proved in
      let (still, owned) = audit_ownership-IsOwned t w1 k in
      (rw (stays ∙ still) at exact, rw still at owned)

  -- When `abort` returns, the candidate and the index are again the tree of the boundary, with its
  -- clean status, Git ownership is unviolated, and no path that the attempt had changed lies outside
  -- the allowed and the requested ones.
  pub abort-IsExact :
      (t : Attempt) (allowed requested : List String) (w : W) {r : AttemptRollback} {w' : W}
      → abort git t allowed requested w ≡ (ok r, w')
      → IsExact t.boundary w' × IsOwned t w' × (minus r.changed_paths (allowed ++ requested) ≡ [])
  unfolding abort enforce_scope
  abort-IsExact t allowed requested w h =
      let (u1, w1, p1, k1) = continue-ok (audit_ownership git t w) _ h in
      let (frozen, w2, p2, k2) = continue-ok (freeze git t w1) _ k1 in
      let (inside, k3) =
        continue-refusing (not (is_nil (minus frozen.1 (allowed ++ requested)))) _ w2 _ k2 in
      let (u4, w4, p4, k4) =
        continue-ok (scan_if git (not (frozen.0 == t.boundary.tree)) w2) _ k3 in
      let (u5, w5, p5, k5) = continue-ok (rollback git t frozen.1 w4) _ k4 in
      let (made, still) = giving-ok k5 in
      let (exact, owned) = rollback-IsExact t frozen.1 w4 p5 in
      (
        rw still at exact,
        rw still at owned,
        rw (← ap (λ x. x.changed_paths) made) (nil-test _ inside),
      )

  -- When `discard` returns, the candidate, the index, the status and Git ownership are those of the
  -- boundary, whatever paths the attempt had changed.
  pub discard-IsExact :
      (t : Attempt) (w : W) {r : AttemptRollback} {w' : W}
      → discard git t w ≡ (ok r, w')
      → IsExact t.boundary w' × IsOwned t w'
  unfolding discard
  discard-IsExact t w h =
      let (u1, w1, p1, k1) = continue-ok (audit_ownership git t w) _ h in
      let (frozen, w2, p2, k2) = continue-ok (freeze git t w1) _ k1 in
      let (u5, w5, p5, k5) = continue-ok (rollback git t frozen.1 w2) _ k2 in
      let (made, still) = giving-ok k5 in
      let (exact, owned) = rollback-IsExact t frozen.1 w2 p5 in
      (rw still at exact, rw still at owned)
