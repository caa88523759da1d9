-- ===== src/Attempt/Recovery.antt =====
-- attempt_transaction.py: taking a worker's Git mutation back, and the containment of a trusted
-- process.
use meta_harness.Common.{
  String, Bool, true, false, not, ◌&&◌, ◌||◌, Option, none, some, List, [], ◌∷◌, ◌==◌,
  if◌then◌else◌,
}
use meta_harness.Common.Outcome.{Outcome, ok}
use meta_harness.Common.Names.{mem, same_text, texts_eq}
use meta_harness.Attempt.Audit.{GitFailure, git_error, GitMutationAudit}
use meta_harness.Common.Effect.{Effect, ◌>>=◌, ◌>>◌, reading, giving, refusing_if, catching}

-- The functions of gitops.py that read the heads and move them.
pub record Heads (W : Type 0) : Type 0 where
  pub symbolic_head : W → Outcome GitFailure (Option String)
  pub current_head : W → Outcome GitFailure String
  pub local_branches : W → Outcome GitFailure (List String)
  pub reset_worktree_soft : String → Effect GitFailure W (Unit {0})
  pub checkout_branch : String → Effect GitFailure W (Unit {0})
  pub delete_ref : String → Effect GitFailure W (Unit {0})

-- The three places that raise `ROLLBACK_FAILED`, and an exception that is not a `GitError`.
pub data RecoveryError : Type 0 where
  not_recoverable not_read_back not_proven : RecoveryError
  git_uncaught : GitFailure → RecoveryError

abbrev pub on_failed_git : RecoveryError → GitFailure → RecoveryError
on_failed_git v git_error = v
on_failed_git v e = git_uncaught e

-- `xs & ys` is not empty
unfoldable pub meets : List String → List String → Bool
unfolding mem
meets [] ys = false
meets (x ∷ xs) ys = mem x ys || meets xs ys

module _ {W : Type 0} (git : Heads W) where
  unfoldable pub reset_if : Bool → String → Effect GitFailure W (Unit {0})
  reset_if true base_sha = git.reset_worktree_soft base_sha
  reset_if false base_sha = giving (ok tt)

  unfoldable pub checkout_if : Bool → String → Effect GitFailure W (Unit {0})
  checkout_if true branch_ref = git.checkout_branch branch_ref
  checkout_if false branch_ref = giving (ok tt)

  unfoldable pub delete_refs : List String → Effect GitFailure W (Unit {0})
  delete_refs [] = giving (ok tt)
  delete_refs (b ∷ bs) = do git.delete_ref b; delete_refs bs

  unfoldable pub move_back : List String → String → String → Effect GitFailure W (Unit {0})
  unfolding reset_if checkout_if delete_refs
  move_back created branch_ref base_sha = do
    head ← reading git.current_head
    reset_if (not (head == base_sha)) base_sha
    head_ref ← reading git.symbolic_head
    checkout_if (not (same_text head_ref (some branch_ref))) branch_ref
    delete_refs created

  -- The conjunction of the second block: it reads no further than the first test that fails.
  unfoldable pub restored : List String → String → String → Effect GitFailure W Bool
  unfolding meets
  restored created branch_ref base_sha = do
    head ← reading git.current_head
    if not (head == base_sha) then giving (ok false) else do
      head_ref ← reading git.symbolic_head
      if not (same_text head_ref (some branch_ref))
          then giving (ok false)
          else do branches ← reading git.local_branches; giving (ok (not (meets branches created)))

  unfoldable pub recover_worker_git_state :
      GitMutationAudit → String → String → Effect RecoveryError W (Unit {0})
  unfolding move_back restored
  recover_worker_git_state audit branch_ref base_sha = do
    catching (on_failed_git not_recoverable) (move_back audit.created_branches branch_ref base_sha)
    proven ←
        catching (on_failed_git not_read_back) (restored audit.created_branches branch_ref base_sha)
    refusing_if (not proven) not_proven

-- `CandidateState`
pub record CandidateState : Type 0 where
  pub head : String
  pub head_ref : Option String
  pub index_tree : String
  pub candidate_tree : String
  pub status : List String
  pub branches : List String
  pub worktrees : List String

-- `candidate_ownership_matches`
unfoldable pub candidate_ownership_matches : CandidateState → CandidateState → Bool
candidate_ownership_matches before after =
    (before.head == after.head)
    && (same_text before.head_ref after.head_ref
        && (texts_eq before.branches after.branches && texts_eq before.worktrees after.worktrees))

-- `==` of two candidate states: the fields one by one
unfoldable pub same_candidate : CandidateState → CandidateState → Bool
unfolding candidate_ownership_matches
same_candidate a b =
    candidate_ownership_matches a b
    && ((a.index_tree == b.index_tree)
        && ((a.candidate_tree == b.candidate_tree) && texts_eq a.status b.status))

pub record Candidates (W : Type 0) : Type 0 where
  pub snapshot_candidate_state : W → Outcome GitFailure CandidateState
  pub candidate_state_changed_paths :
      CandidateState → CandidateState → W → Outcome GitFailure (List String)
  pub restore_candidate_state : CandidateState → Effect GitFailure W CandidateState

pub record SideEffect : Type 0 where
  pub after : CandidateState
  pub changed_paths : List String
  pub ownership_preserved : Bool

pub data ContainmentError : Type 0 where
  rollback_failed not_exact ownership_changed : ContainmentError
  unobserved : GitFailure → ContainmentError

abbrev pub on_failed_restore : GitFailure → ContainmentError
on_failed_restore git_error = rollback_failed
on_failed_restore e = unobserved e

module _ {W : Type 0} (git : Candidates W) where
  unfoldable pub observe_side_effects : CandidateState → Effect GitFailure W (Option SideEffect)
  observe_side_effects before = do
    after ← reading git.snapshot_candidate_state
    if same_candidate after before then giving (ok none) else do
      changed ← reading (git.candidate_state_changed_paths before after)
      giving (
          ok (
            some (record {
              after = after;
              changed_paths = changed;
              ownership_preserved = candidate_ownership_matches before after;
            })))

  unfoldable pub restore_exact : CandidateState → Effect ContainmentError W (Unit {0})
  restore_exact before = do
    back ← catching on_failed_restore (git.restore_candidate_state before)
    refusing_if (not (same_candidate back before)) not_exact

  unfoldable pub contain_effect :
      CandidateState → Option SideEffect → Effect ContainmentError W (Option SideEffect)
  unfolding restore_exact
  contain_effect before none = giving (ok none)
  contain_effect before (some effect) = do
    refusing_if (not effect.ownership_preserved) ownership_changed
    restore_exact before
    giving (ok (some effect))

  unfoldable pub contain_trusted_process :
      CandidateState → Effect ContainmentError W (Option SideEffect)
  unfolding observe_side_effects contain_effect
  contain_trusted_process before = do
    effect ← catching unobserved (observe_side_effects before)
    contain_effect before effect
