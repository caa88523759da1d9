-- ===== src/Attempt/Gaps.antt =====
-- attempt_transaction.py: a mutation that the audit passes over.
use meta_harness.Common.{String, ◌≡◌, ◌≢◌, refl, true, false, none, [], eq_refl}
use meta_harness.Common.Outcome.{ok}
use meta_harness.Common.Names.{minus, same_text}
use meta_harness.Attempt.Ownership.{GitOwnership, ownership_violations}
use meta_harness.Attempt.Audit.{
  Ancestry, same_refs, remote_refs, foreign_ref_changes, adopted_of, at_home, head_audit,
  audit_git_mutation,
}

-- A worktree whose head was detached at the expected commit, with no branch deleted and no foreign
-- ref changed, gets an audit that is not fatal, although the violations of ownership name the head.
pub audit_git_mutation-detached :
    (before after : GitOwnership) (branch_ref : String) (repo : Ancestry)
    → after.head_ref ≡ none
    → minus before.branches after.branches ≡ []
    → same_refs (remote_refs after.refs) (remote_refs before.refs) ≡ true
    → foreign_ref_changes before after branch_ref (minus after.branches before.branches) ≡ []
    → (audit_git_mutation before after branch_ref after.head repo
        ≡ ok (record {
          fatal = none;
          worker_commits = false;
          created_branches = minus after.branches before.branches;
          adopted_branch = none;
        }))
      × (ownership_violations before after branch_ref after.head ≢ [])
unfolding audit_git_mutation head_audit adopted_of at_home same_text ownership_violations
audit_git_mutation-detached before after branch_ref repo away kept remotes local =
    (rw (kept, remotes, local, away, eq_refl after.head) refl, λ h. cc (rw away at h))
