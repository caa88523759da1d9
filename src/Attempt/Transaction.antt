-- ===== src/Attempt/Transaction.antt =====
-- attempt_transaction.py: `CandidateAttemptTransaction`, over the functions of gitops.py and the
-- security scan, which run Git.
use meta_harness.Common.{
  String, Bool, true, false, not, ◌||◌, Option, none, some, List, [], ◌∷◌, ◌++◌, ◌==◌,
  if◌then◌else◌,
}
use meta_harness.Common.Outcome.{Outcome, ok}
use meta_harness.Common.Text.{before_colon}
use meta_harness.Common.Names.{minus, is_nil, texts_eq}
use meta_harness.Attempt.Ownership.{
  Ref, GitOwnership, Problem, ownership_violations, status_has_unstaged_or_untracked,
}
use meta_harness.Attempt.Audit.{GitFailure, git_error, value_error}
use meta_harness.Common.Effect.{Effect, ◌>>=◌, ◌>>◌, reading, giving, refusing_if, catching}

-- The functions that the transaction calls, over a world of a repository and a worktree.
pub record Git (W : Type 0) : Type 0 where
  pub symbolic_head : W → Outcome GitFailure (Option String)
  pub current_head : W → Outcome GitFailure String
  pub local_branches : W → Outcome GitFailure (List String)
  pub registered_worktrees : W → Outcome GitFailure (List String)
  pub all_refs : W → Outcome GitFailure (List Ref)
  pub candidate_tree_sha : W → Outcome GitFailure String
  pub index_tree_sha : W → Outcome GitFailure String
  pub status_porcelain : W → Outcome GitFailure (List String)
  pub changed_paths_between_trees : String → String → W → Outcome GitFailure (List String)
  pub scan_staged_security : W → Outcome GitFailure (List String)
  pub stage_all : Effect GitFailure W (Unit {0})
  pub restore_paths_from_tree : String → List String → Effect GitFailure W (Unit {0})

-- The places that raise an `AttemptViolation`.
pub data Violation : Type 0 where
  tree_unreadable index_not_exact ownership_unreadable not_frozen not_scanned : Violation
  rollback_not_exact : Violation
  git_violation : List Problem → Violation
  outside_scope : List String → Violation
  unsafe_changes : List String → Violation

-- `AttemptViolation.code`
unfoldable pub violation_code : Violation → String
violation_code ownership_unreadable = "AGENT_GIT_VIOLATION"
violation_code (git_violation ps) = "AGENT_GIT_VIOLATION"
violation_code (outside_scope ps) = "AGENT_SCOPE_VIOLATION"
violation_code not_scanned = "COMMIT_SECURITY_FAILURE"
violation_code (unsafe_changes []) = ""
violation_code (unsafe_changes (f ∷ fs)) = before_colon f
violation_code _ = "RESUME_REQUIRES_OPERATOR"

-- What a method raises: a violation, or an exception of Git that it does not catch.
pub data AttemptError : Type 0 where
  violation : Violation → AttemptError
  uncaught : GitFailure → AttemptError

abbrev pub on_git_error : Violation → GitFailure → AttemptError
on_git_error v git_error = violation v
on_git_error v e = uncaught e

abbrev pub on_git_or_os_error : Violation → GitFailure → AttemptError
on_git_or_os_error v value_error = uncaught value_error
on_git_or_os_error v e = violation v

abbrev pub on_any_error : Violation → GitFailure → AttemptError
on_any_error v e = violation v

pub record AttemptBoundary : Type 0 where
  pub tree : String
  pub status : List String
  pub ownership : GitOwnership

pub record Attempt : Type 0 where
  pub boundary : AttemptBoundary
  pub branch_ref : String
  pub base_sha : String

pub record AttemptRollback : Type 0 where
  pub changed_paths : List String
  pub tree_after : String

-- `base_sha or boundary.ownership.head`
unfoldable pub base_or : Option String → String → String
base_or none head = head
base_or (some s) head = if s == "" then head else s

module _ {W : Type 0} (git : Git W) where
  unfoldable pub git_ownership : Effect GitFailure W GitOwnership
  git_ownership = do
    head_ref ← reading git.symbolic_head
    head ← reading git.current_head
    branches ← reading git.local_branches
    worktrees ← reading git.registered_worktrees
    refs ← reading git.all_refs
    giving (
        ok (record {
          head_ref = head_ref;
          head = head;
          branches = branches;
          worktrees = worktrees;
          refs = refs;
        }))

  -- `begin`: the reads, then the boundary.
  unfoldable pub begin : String → Option String → Effect AttemptError W Attempt
  unfolding git_ownership
  begin branch_ref base_sha = do
    tree ← catching (on_git_error tree_unreadable) (reading git.candidate_tree_sha)
    index ← catching (on_git_error tree_unreadable) (reading git.index_tree_sha)
    status ← catching (on_git_error tree_unreadable) (reading git.status_porcelain)
    ownership ← catching (on_git_error tree_unreadable) git_ownership
    refusing_if (not (index == tree)) (violation index_not_exact)
    giving (
        ok (record {
          boundary = record { tree = tree; status = status; ownership = ownership };
          branch_ref = branch_ref;
          base_sha = base_or base_sha ownership.head;
        }))

  unfoldable pub audit_ownership : Attempt → Effect AttemptError W (Unit {0})
  unfolding git_ownership
  audit_ownership t = do
    after ← catching (on_git_error ownership_unreadable) git_ownership
    let problems = ownership_violations t.boundary.ownership after t.branch_ref t.base_sha
    refusing_if (not (is_nil problems)) (violation (git_violation problems))

  unfoldable pub restage : Bool → String → Effect GitFailure W String
  restage true tree = do git.stage_all; reading git.candidate_tree_sha
  restage false tree = giving (ok tree)

  unfoldable pub freeze : Attempt → Effect AttemptError W (String × List String)
  unfolding restage
  freeze t = catching (on_any_error not_frozen) (do
    tree ← reading git.candidate_tree_sha
    index ← reading git.index_tree_sha
    status ← reading git.status_porcelain
    let before = t.boundary.tree
    let dirty = not (is_nil (status_has_unstaged_or_untracked status))
    frozen ← restage (not (tree == before) || not (index == before) || dirty) tree
    changed ← reading (git.changed_paths_between_trees before frozen)
    giving (ok (frozen, changed)))

  unfoldable pub enforce_scope : List String → List String → Effect AttemptError W (Unit {0})
  enforce_scope changed allowed =
      let outside = minus changed allowed in
      refusing_if (not (is_nil outside)) (violation (outside_scope outside))

  unfoldable pub scan : Effect AttemptError W (Unit {0})
  scan = do
    failures ← catching (on_any_error not_scanned) (reading git.scan_staged_security)
    refusing_if (not (is_nil failures)) (violation (unsafe_changes failures))

  unfoldable pub put_back : String → List String → Effect GitFailure W (Unit {0})
  put_back tree [] = giving (ok tt)
  put_back tree (p ∷ ps) = do git.restore_paths_from_tree tree (p ∷ ps); git.stage_all

  -- The proof at the end of `rollback`: the status is read first, the tests stop at the first one.
  unfoldable pub prove_exact : AttemptBoundary → Effect GitFailure W (Unit {0})
  prove_exact before = do
    status ← reading git.status_porcelain
    tree ← reading git.candidate_tree_sha
    refusing_if (not (tree == before.tree)) git_error
    index ← reading git.index_tree_sha
    refusing_if (not (index == before.tree)) git_error
    refusing_if (not (texts_eq status before.status)) git_error
    refusing_if (not (is_nil (status_has_unstaged_or_untracked status))) git_error

  unfoldable pub rollback : Attempt → List String → Effect AttemptError W (Unit {0})
  unfolding put_back prove_exact audit_ownership
  rollback t changed = do
    catching (on_git_or_os_error rollback_not_exact)
        (do put_back t.boundary.tree changed; prove_exact t.boundary)
    audit_ownership t

  unfoldable pub scan_if : Bool → Effect AttemptError W (Unit {0})
  unfolding scan
  scan_if true = scan
  scan_if false = giving (ok tt)

  unfoldable pub abort : Attempt → List String → List String → Effect AttemptError W AttemptRollback
  unfolding audit_ownership freeze enforce_scope scan_if rollback
  abort t allowed requested = do
    audit_ownership t
    frozen ← freeze t
    enforce_scope frozen.1 (allowed ++ requested)
    scan_if (not (frozen.0 == t.boundary.tree))
    rollback t frozen.1
    giving (ok (record { changed_paths = frozen.1; tree_after = frozen.0 }))

  unfoldable pub discard : Attempt → Effect AttemptError W AttemptRollback
  unfolding audit_ownership freeze rollback
  discard t = do
    audit_ownership t
    frozen ← freeze t
    rollback t frozen.1
    giving (ok (record { changed_paths = frozen.1; tree_after = frozen.0 }))
