-- ===== src/Steps/Accept.antt =====
-- orchestration/step_execution.py: `_accept_v2_step_tree`. The trace is left out. The functions of
-- gitops.py, the reading of the worker's report and the patch file are the fields of an interface.
use meta_harness.Common.{String, not, Option, none, some, ◌==◌, if◌then◌else◌}
use meta_harness.Common.Outcome.{Outcome, ok, raised, map_raised}
use meta_harness.Common.Effect.{Effect, ◌>>=◌, ◌>>◌, reading, giving, refusing_if}
use meta_harness.Common.Names.{is_nil}
use meta_harness.Json.{str, obj, arr, Fields, end, field, get}
use meta_harness.Store.Disk.{load}
use meta_harness.Store.Writes.{update_metadata}
use meta_harness.Attempt.Audit.{GitFailure}
use meta_harness.Attempt.Ownership.{status_has_unstaged_or_untracked}
use meta_harness.Commit.Safety.{
  DeferredVerification, CommitSafetyResult, commit_safety_gate, StepVerification,
}
use meta_harness.Commit.Record.{AuthoritySummary, accepted_step_record}
use meta_harness.Steps.Finalize.{
  RunDir, AcceptError, head_moved, not_the_current_tree, neither_unchanged_nor_deferred, refused,
  git_failed, not_written, not_stored, Committed, listed, with_last, on_disk,
  finalize_accepted_step,
}
use meta_harness.Steps.Authority.{
  EffectiveStepAuthority, identity_payload, AcceptHost, Acceptance, first_of, gate_request,
  unchanged_record, expected_fields,
}

module _ {W : Type 0} (host : AcceptHost W) where
  -- `authority_sha256`
  unfoldable pub authority_sha256 : EffectiveStepAuthority → String
  unfolding identity_payload
  authority_sha256 a = host.canonical_sha256 (identity_payload a)

  -- `summary`, without the mutable paths
  unfoldable pub summary : EffectiveStepAuthority → AuthoritySummary
  unfolding authority_sha256
  summary a = record {
    effective_authority_sha256 = authority_sha256 a;
    effective_contract_sha256 = a.effective_contract_sha256;
    approved_contract_sha256 = a.approved_contract_sha256;
  }

  unfoldable pub committed : Acceptance → StepVerification → CommitSafetyResult → String → Committed
  unfolding summary accepted_step_record
  committed q v gate sha = record {
    step_id = q.authority.step_id;
    commit_sha = sha;
    parent_sha = q.parent_sha;
    tree_after = q.outcome.tree_after;
    verification_status = v.status;
    row =
        accepted_step_record
          (record {
            step_id = q.authority.step_id;
            verification_status = v.status;
            parent_sha = q.parent_sha;
            commit_sha = sha;
            tree_before = q.outcome.tree_before;
            tree_after = q.outcome.tree_after;
            changed_paths = gate.changed_paths;
            deferred = v.deferred;
          })
          (summary q.authority);
    authority_sha256 = authority_sha256 q.authority;
    contract_sha256 = q.authority.effective_contract_sha256;
    next_step = first_of q.future_step_ids;
  }

  -- Reads of the world, and operations on either part of the state.
  unfoldable pub read_git :
      {A : Type 0} → (W → Outcome GitFailure A) → Effect AcceptError (RunDir × W) A
  read_git f (r, w) = (map_raised git_failed (f w), (r, w))

  unfoldable pub on_run :
      {A : Type 0} → Effect AcceptError RunDir A → Effect AcceptError (RunDir × W) A
  on_run m (r, w) = ((m r).0, ((m r).1, w))

  unfoldable pub on_world :
      {A E : Type 0} → (E → AcceptError) → Effect E W A → Effect AcceptError (RunDir × W) A
  on_world f m (r, w) = (map_raised f (m w).0, (r, (m w).1))

  unfoldable pub store_fields : Fields → Effect AcceptError (RunDir × W) (Unit {0})
  unfolding on_run on_disk
  store_fields fields (r, w) =
      (do written ← on_run (on_disk (update_metadata (host.now w) none fields)); giving (ok tt))
        (r, w)

  -- An outcome without a change.
  unfoldable pub accept_no_change : Acceptance → Effect AcceptError (RunDir × W) (Option String)
  unfolding read_git store_fields expected_fields
  accept_no_change q = do
    refusing_if (not (q.outcome.tree_after == q.outcome.tree_before)) not_the_current_tree
    candidate ← read_git host.git.candidate_tree_sha
    refusing_if (not (candidate == q.outcome.tree_after)) not_the_current_tree
    index ← read_git host.git.index_tree_sha
    refusing_if (not (index == q.outcome.tree_after)) not_the_current_tree
    status ← read_git host.git.status_porcelain
    refusing_if (not (is_nil (status_has_unstaged_or_untracked status))) not_the_current_tree
    parents ← read_git (host.commit_parents q.parent_sha)
    store_fields (expected_fields q parents (field "no_change_step" (str q.authority.step_id) end))
    giving (ok none)

  -- A deferred verification whose tree is the one before.
  unfoldable pub accept_unchanged :
      Acceptance → Option DeferredVerification → Effect AcceptError (RunDir × W) (Option String)
  unfolding read_git store_fields expected_fields unchanged_record listed with_last
  accept_unchanged q none = giving (raised neither_unchanged_nor_deferred)
  accept_unchanged q (some d) = do
    state ← reading (λ s. map_raised not_stored (load s.0.disk.state_file))
    records ← giving (listed (get state "deferred_verifications"))
    parents ← read_git (host.commit_parents q.parent_sha)
    store_fields (
        field "deferred_verifications" (arr (with_last records (obj (unchanged_record q d))))
          (expected_fields q parents end))
    giving (ok none)

  -- A changed tree, through the commit gate.
  unfoldable pub accept_commit :
      Acceptance → StepVerification → Effect AcceptError (RunDir × W) (Option String)
  unfolding gate_request on_world committed on_run
  accept_commit q v = do
    gate ← reading (λ s.
        map_raised refused (commit_safety_gate host.git host.resolve_tree (gate_request q v) s.1))
    on_world not_written host.write_diff
    sha ←
        on_world git_failed (
          host.commit_step_tree gate.tree_sha gate.parent_sha q.authority.step_id q.authority.title)
    now ← reading (λ s. ok (host.now s.1))
    on_run (finalize_accepted_step host.fits now (committed q v gate sha))
    giving (ok (some sha))

  unfoldable pub verified : Acceptance → Outcome AcceptError StepVerification
  verified q = elim q.verification [
    | some v ↦ ok v
    | none ↦
        map_raised refused (host.step_verification q.outcome q.authority.step_id q.future_step_ids)
  ]

  -- `_accept_v2_step_tree`
  unfoldable pub accept_v2_step_tree : Acceptance → Effect AcceptError (RunDir × W) (Option String)
  unfolding read_git accept_no_change accept_unchanged accept_commit verified
  accept_v2_step_tree q = do
    head ← read_git host.git.current_head
    refusing_if (not (head == q.parent_sha)) head_moved
    if q.outcome.no_change then accept_no_change q else (do
      v ← giving (verified q)
      if q.outcome.tree_after == q.outcome.tree_before
          then accept_unchanged q v.deferred
          else accept_commit q v)
