-- ===== src/Attempt/Steady.antt =====
-- A candidate that is at its boundary stays there: nothing to undo, and nothing is refused.
use meta_harness.Common.{String, ◌≡◌, refl, List, [], eq_refl}
use meta_harness.Common.Outcome.{ok}
use meta_harness.Common.Names.{texts_eq_refl, minus}
use meta_harness.Attempt.Transaction.{
  Git, Attempt, AttemptRollback, audit_ownership, restage, freeze, enforce_scope, scan_if, put_back,
  prove_exact, rollback, abort,
}
use meta_harness.Attempt.Rollback.{IsExact, IsOwned, abort-IsExact}

module _ {W : Type 0} (git : Git W) (t : Attempt) (w : W) where
  audit_steady : IsOwned git t w → audit_ownership git t w ≡ (ok tt, w)
  unfolding audit_ownership
  audit_steady o = rw (o.owned_read, o.unviolated) refl

  freeze_steady :
      IsExact git t.boundary w
      → git.changed_paths_between_trees t.boundary.tree t.boundary.tree w ≡ ok []
      → freeze git t w ≡ (ok (t.boundary.tree, []), w)
  unfolding freeze restage
  freeze_steady e same =
      rw (e.candidate_read, e.index_read, e.status_read, e.staged, eq_refl t.boundary.tree, same)
        refl

  rollback_steady : IsExact git t.boundary w → IsOwned git t w → rollback git t [] w ≡ (ok tt, w)
  unfolding rollback put_back prove_exact
  rollback_steady e o =
      rw
        (
          e.status_read,
          e.candidate_read,
          eq_refl t.boundary.tree,
          e.index_read,
          eq_refl t.boundary.tree,
          texts_eq_refl t.boundary.status,
          e.staged,
          audit_steady o,
        )
        refl

  pub abort_steady :
      (allowed requested : List String)
      → IsExact git t.boundary w
      → IsOwned git t w
      → git.changed_paths_between_trees t.boundary.tree t.boundary.tree w ≡ ok []
      → abort git t allowed requested w
        ≡ (ok (record { changed_paths = []; tree_after = t.boundary.tree }), w)
  unfolding abort enforce_scope scan_if minus
  abort_steady allowed requested e o same =
      rw (audit_steady o, freeze_steady e same, eq_refl t.boundary.tree, rollback_steady e o) refl

-- An attempt that was aborted can be aborted again, under any scope: that changes nothing. A tree
-- does not differ from itself.
pub abort-abort :
    {W : Type 0} (git : Git W) (t : Attempt) (allowed requested other asked : List String) (w : W)
    {r : AttemptRollback} {w' : W}
    → abort git t allowed requested w ≡ (ok r, w')
    → git.changed_paths_between_trees t.boundary.tree t.boundary.tree w' ≡ ok []
    → abort git t other asked w'
      ≡ (ok (record { changed_paths = []; tree_after = t.boundary.tree }), w')
abort-abort git t allowed requested other asked w {w' = w'} h same =
    let (exact, owned, inside) = abort-IsExact git t allowed requested w h in
    abort_steady git t w' other asked exact owned same
