-- ===== src/Samples/AttemptRuns.antt =====
-- Attempts in a repository of one file.
use meta_harness.Common.{
  String, ◌≡◌, ◌≢◌, ◌⊎◌, refl, true, false, Option, none, some, List, [], ◌∷◌, ◌++◌, ◌==◌,
  if◌then◌else◌,
}
use meta_harness.Common.Outcome.{ok}
use meta_harness.Common.Text.{has_prefix}
use meta_harness.Common.Names.{mem, minus, texts_eq, same_text}
use meta_harness.Attempt.Ownership.{
  GitOwnership, ownership_violations, line_dirt, second_marked, status_has_unstaged_or_untracked,
}
use meta_harness.Attempt.Audit.{
  GitMutationAudit, Ancestry, recoverable, value_of, remote_refs, same_refs, exempt, ref_change,
  moved_refs, lost_refs, foreign_ref_changes, moves_forward, adopted_of, at_home, forward_audit,
  head_audit, audit_git_mutation,
}
use meta_harness.Attempt.Transaction.{
  Git, Attempt, base_or, git_ownership, begin, audit_ownership, restage, freeze, enforce_scope,
  scan, put_back, prove_exact, rollback, scan_if, abort, discard,
}
use meta_harness.Attempt.Rollback.{IsExact, IsOwned, abort-IsExact}
use meta_harness.Attempt.Steady.{abort-abort}
use meta_harness.Attempt.Recovery.{
  Heads, meets, reset_if, checkout_if, delete_refs, move_back, restored, recover_worker_git_state,
  CandidateState, candidate_ownership_matches, same_candidate, Candidates, observe_side_effects,
  restore_exact, contain_effect, contain_trusted_process,
}
use meta_harness.Attempt.Proven.{
  IsReattached, recover_worker_git_state-IsReattached, kept, contain_trusted_process-exact,
}
use meta_harness.Attempt.Recoverable.{audit_git_mutation-contained}
use meta_harness.Attempt.Gaps.{audit_git_mutation-detached}

-- The tree of the files, and the tree of the index.
pub record Copy : Type 0 where
  pub files : String
  pub staged : String

abbrev pub home : GitOwnership
home = record {
  head_ref = some "refs/heads/run";
  head = "c0";
  branches = "refs/heads/run" ∷ [];
  worktrees = [];
  refs = record { name = "refs/heads/run"; value = "c0" } ∷ [];
}

abbrev pub one_file : Git Copy
one_file = record {
  symbolic_head = λ w. ok home.head_ref;
  current_head = λ w. ok home.head;
  local_branches = λ w. ok home.branches;
  registered_worktrees = λ w. ok home.worktrees;
  all_refs = λ w. ok home.refs;
  candidate_tree_sha = λ w. ok w.files;
  index_tree_sha = λ w. ok w.staged;
  status_porcelain = λ w. ok (if w.files == w.staged then [] else " M f" ∷ []);
  changed_paths_between_trees = λ a b w. ok (if a == b then [] else "f" ∷ []);
  scan_staged_security = λ w. ok [];
  stage_all = λ w. (ok tt, record w { staged = w.files });
  restore_paths_from_tree = λ tree paths w. (ok tt, record w { files = tree });
}

abbrev attempt : Attempt
attempt = record {
  boundary = record { tree = "t0"; status = []; ownership = home };
  branch_ref = "refs/heads/run";
  base_sha = "c0";
}

abbrev pub edited : Copy
edited = record { files = "t1"; staged = "t0" }

abbrev pub clean : Copy
clean = record { files = "t0"; staged = "t0" }

-- Opens the transaction and all that it calls.
unfoldable pub whole_attempt : Unit {0}
unfolding has_prefix mem minus texts_eq same_text ownership_violations line_dirt second_marked
    status_has_unstaged_or_untracked base_or git_ownership begin audit_ownership restage freeze
    enforce_scope scan put_back prove_exact rollback scan_if abort discard
whole_attempt = tt

begin_test : begin one_file "refs/heads/run" none clean ≡ (ok attempt, clean)
unfolding whole_attempt
begin_test = refl

abort_test :
    abort one_file attempt ("f" ∷ []) [] edited
    ≡ (ok (record { changed_paths = "f" ∷ []; tree_after = "t1" }), clean)
unfolding whole_attempt
abort_test = refl

abort-IsExact_example :
    IsExact one_file attempt.boundary clean
    × IsOwned one_file attempt clean
    × (minus ("f" ∷ []) (("f" ∷ []) ++ []) ≡ [])
abort-IsExact_example = abort-IsExact one_file attempt ("f" ∷ []) [] edited abort_test

abort-abort_example :
    abort one_file attempt [] [] clean
    ≡ (ok (record { changed_paths = []; tree_after = "t0" }), clean)
abort-abort_example = abort-abort one_file attempt ("f" ∷ []) [] [] [] edited abort_test refl

-- The heads of a repository whose branches are the run branch and those listed.
record Place : Type 0 where
  at : String
  on : Option String
  others : List String

abbrev small_heads : Heads Place
small_heads = record {
  symbolic_head = λ w. ok w.on;
  current_head = λ w. ok w.at;
  local_branches = λ w. ok w.others;
  reset_worktree_soft = λ sha w. (ok tt, record w { at = sha });
  checkout_branch = λ b w. (ok tt, record w { on = some b });
  delete_ref = λ b w. (ok tt, record w { others = [] });
}

abbrev strayed : Place
strayed = record { at = "c1"; on = some "refs/heads/mine"; others = "refs/heads/mine" ∷ [] }

abbrev back : Place
back = record { at = "c0"; on = some "refs/heads/run"; others = [] }

abbrev own_branch : GitMutationAudit
own_branch = record {
  fatal = none;
  worker_commits = true;
  created_branches = "refs/heads/mine" ∷ [];
  adopted_branch = some "refs/heads/mine";
}

recover_worker_git_state-IsReattached_example :
    IsReattached small_heads ("refs/heads/mine" ∷ []) "refs/heads/run" "c0" back
unfolding recover_worker_git_state move_back restored reset_if checkout_if delete_refs meets mem
    same_text
recover_worker_git_state-IsReattached_example =
    recover_worker_git_state-IsReattached small_heads own_branch "refs/heads/run" "c0" strayed
      {u = tt} refl

abbrev candidates : Candidates CandidateState
candidates = record {
  snapshot_candidate_state = λ w. ok w;
  candidate_state_changed_paths = λ a b w. ok ("f" ∷ []);
  restore_candidate_state = λ s w. (ok s, s);
}

abbrev before_setup : CandidateState
before_setup = record {
  head = "c0";
  head_ref = some "refs/heads/run";
  index_tree = "t0";
  candidate_tree = "t0";
  status = [];
  branches = [];
  worktrees = [];
}

abbrev after_setup : CandidateState
after_setup = record before_setup { candidate_tree = "t1" }

contain_trusted_process-exact_example :
    (candidates.snapshot_candidate_state before_setup ≡ ok before_setup)
    × (kept (
          some
            (record { after = after_setup; changed_paths = "f" ∷ []; ownership_preserved = true }))
        ≡ true)
unfolding contain_trusted_process observe_side_effects contain_effect restore_exact same_candidate
    candidate_ownership_matches same_text texts_eq
contain_trusted_process-exact_example =
    contain_trusted_process-exact candidates before_setup after_setup refl (λ v s h. cc)

-- The attempt made a branch of its own, checked it out and committed on it.
abbrev own_after : GitOwnership
own_after = record {
  head_ref = some "refs/heads/mine";
  head = "c1";
  branches = "refs/heads/mine" ∷ "refs/heads/run" ∷ [];
  worktrees = [];
  refs = record { name = "refs/heads/mine"; value = "c1" } ∷ home.refs;
}

abbrev forward : Ancestry
forward = some (λ a b. ok true)

-- Opens the audit and all that it calls.
whole_audit : Unit {0}
unfolding has_prefix mem minus same_text recoverable value_of remote_refs same_refs exempt
    ref_change moved_refs lost_refs foreign_ref_changes moves_forward adopted_of at_home
    forward_audit head_audit audit_git_mutation
whole_audit = tt

own_branch_test : audit_git_mutation home own_after "refs/heads/run" "c0" forward ≡ ok own_branch
unfolding whole_audit
own_branch_test = refl

audit_git_mutation-contained_example :
    (minus home.branches own_after.branches ≡ [])
    × (same_refs (remote_refs own_after.refs) (remote_refs home.refs) ≡ true)
    × (value_of own_after.refs "refs/tags/v1" ≡ value_of home.refs "refs/tags/v1")
    × (at_home own_after.head_ref "refs/heads/run" own_branch.adopted_branch ≡ true)
    × ((own_after.head ≡ "c0") ⊎ (moves_forward home.head own_after.head "c0" forward ≡ ok true))
unfolding whole_audit
audit_git_mutation-contained_example =
    audit_git_mutation-contained home own_after "refs/heads/run" "c0" forward "refs/tags/v1"
      own_branch_test refl refl

abbrev detached : GitOwnership
detached = record home { head_ref = none }

audit_git_mutation-detached_example :
    (audit_git_mutation home detached "refs/heads/run" detached.head forward
      ≡ ok (record {
        fatal = none;
        worker_commits = false;
        created_branches = minus detached.branches home.branches;
        adopted_branch = none;
      }))
    × (ownership_violations home detached "refs/heads/run" detached.head ≢ [])
unfolding whole_audit
audit_git_mutation-detached_example =
    audit_git_mutation-detached home detached "refs/heads/run" forward refl refl refl refl
