-- ===== src/Attempt/Proven.antt =====
-- What is proven when a worker's Git mutation was taken back, and when a trusted process was
-- contained.
use meta_harness.Common.{
  and-true, String, ◌≡◌, refl, sym, ap, ◌∙◌, Bool, true, false, not, Option, none, some, List, ◌==◌,
  arith, eq_iff, Bool-cases, inl, inr,
}
use meta_harness.Common.Outcome.{ok}
use meta_harness.Common.Names.{same_text, same_text-eq, texts_eq, texts_eq_lem}
use meta_harness.Attempt.Audit.{GitMutationAudit}
use meta_harness.Common.Effect.{
  catching, continue-ok, continue-reading, continue-refusing, translated-ok, refusing-ok, giving-ok,
}
use meta_harness.Attempt.Recovery.{
  Heads, not_recoverable, not_read_back, not_proven, on_failed_git, meets, move_back, restored,
  recover_worker_git_state, CandidateState, candidate_ownership_matches, same_candidate, Candidates,
  SideEffect, on_failed_restore, unobserved, ownership_changed, not_exact, observe_side_effects,
  restore_exact, contain_effect, contain_trusted_process,
}

module _ {W : Type 0} (git : Heads W) where
  -- The worktree is on the run branch at the expected commit, and none of the branches is left.
  pub record IsReattached (created : List String) (branch_ref base_sha : String) (w : W)
      : Type 0 where
    pub branches : List String
    pub head_read : git.current_head w ≡ ok base_sha
    pub head_ref_read : git.symbolic_head w ≡ ok (some branch_ref)
    pub branches_read : git.local_branches w ≡ ok branches
    pub gone : meets branches created ≡ false

  restored-IsReattached :
      (created : List String) (branch_ref base_sha : String) (w : W) {b : Bool} {w' : W}
      → restored git created branch_ref base_sha w ≡ (ok b, w')
      → b ≡ true
      → (w ≡ w') × IsReattached created branch_ref base_sha w
  unfolding restored
  restored-IsReattached created branch_ref base_sha w h holds =
      let (head, p1, k1) = continue-reading (git.current_head w) w _ h in
      elim (Bool-cases (head == base_sha)) [
        | inr e ↦ let (t, still) = giving-ok (rw e at k1) in cc
        | inl e ↦
            let (head_ref, p2, k2) = continue-reading (git.symbolic_head w) w _ (rw e at k1) in
            elim (Bool-cases (same_text head_ref (some branch_ref))) [
              | inr d ↦ let (t, still) = giving-ok (rw d at k2) in cc
              | inl d ↦
                  let (branches, p3, k3) =
                    continue-reading (git.local_branches w) w _ (rw d at k2) in
                  let (t, still) = giving-ok k3 in
                  (
                    still,
                    record {
                      branches = branches;
                      head_read = p1 ∙ ap ok ((eq_iff head base_sha).0 e);
                      head_ref_read = p2 ∙ ap ok (same_text-eq head_ref (some branch_ref) d);
                      branches_read = p3;
                      gone = ground arith;
                    },
                  )
            ]
      ]

  -- When the recovery returns, the worktree is on the run branch at the expected commit, and none
  -- of the branches that the attempt created is left.
  pub recover_worker_git_state-IsReattached :
      (audit : GitMutationAudit) (branch_ref base_sha : String) (w : W) {u : Unit {0}} {w' : W}
      → recover_worker_git_state git audit branch_ref base_sha w ≡ (ok u, w')
      → IsReattached audit.created_branches branch_ref base_sha w'
  unfolding recover_worker_git_state
  recover_worker_git_state-IsReattached audit branch_ref base_sha w h =
      let (u1, w1, p1, k1) =
        continue-ok
          (catching (on_failed_git not_recoverable)
            (move_back git audit.created_branches branch_ref base_sha) w)
          _ h in
      let (proven, w2, p2, k2) =
        continue-ok
          (catching (on_failed_git not_read_back)
            (restored git audit.created_branches branch_ref base_sha) w1)
          _ k1 in
      let read =
        translated-ok (on_failed_git not_read_back)
          (restored git audit.created_branches branch_ref base_sha w1) p2 in
      let (sure, e) = refusing-ok (not proven) not_proven k2 in
      let (still, there) =
        restored-IsReattached audit.created_branches branch_ref base_sha w1 read (ground arith) in
      rw (still ∙ e) at there

same_candidate-eq : (a b : CandidateState) → same_candidate a b ≡ true → a ≡ b
unfolding same_candidate candidate_ownership_matches
same_candidate-eq a b h =
    let (owned, r1) = and-true _ _ h in
    let (index, r2) = and-true (a.index_tree == b.index_tree) _ r1 in
    let (candidate, status) = and-true (a.candidate_tree == b.candidate_tree) _ r2 in
    let (head, r3) = and-true (a.head == b.head) _ owned in
    let (head_ref, r4) = and-true (same_text a.head_ref b.head_ref) _ r3 in
    let (branches, worktrees) = and-true (texts_eq a.branches b.branches) _ r4 in
    λ i. record {
      head = (eq_iff a.head b.head).0 head i;
      head_ref = same_text-eq a.head_ref b.head_ref head_ref i;
      index_tree = (eq_iff a.index_tree b.index_tree).0 index i;
      candidate_tree = (eq_iff a.candidate_tree b.candidate_tree).0 candidate i;
      status = texts_eq_lem a.status b.status status i;
      branches = texts_eq_lem a.branches b.branches branches i;
      worktrees = texts_eq_lem a.worktrees b.worktrees worktrees i;
    }

abbrev pub kept : Option SideEffect → Bool
kept none = true
kept (some e) = e.ownership_preserved

module _ {W : Type 0} (git : Candidates W) (before : CandidateState) where
  observe-unchanged :
      (w : W) {w' : W}
      → observe_side_effects git before w ≡ (ok none, w')
      → git.snapshot_candidate_state w' ≡ ok before
  unfolding observe_side_effects
  observe-unchanged w h =
      let (after, p, k) = continue-reading (git.snapshot_candidate_state w) w _ h in
      elim (Bool-cases (same_candidate after before)) [
        | inl e ↦
            let (t, still) = giving-ok (rw e at k) in
            rw (← still) (p ∙ ap ok (same_candidate-eq after before e))
        | inr e ↦
            let (changed, q, g) =
              continue-reading (git.candidate_state_changed_paths before after w) w _ (rw e at k) in
            cc
      ]

  restore_exact-state :
      (w : W) {u : Unit {0}} {w' : W}
      → restore_exact git before w ≡ (ok u, w')
      → git.restore_candidate_state before w ≡ (ok before, w')
  unfolding restore_exact
  restore_exact-state w h =
      let (back, w1, p, k) =
        continue-ok (catching on_failed_restore (git.restore_candidate_state before) w) _ h in
      let q = translated-ok on_failed_restore (git.restore_candidate_state before w) p in
      let (same, still) = refusing-ok (not (same_candidate back before)) not_exact k in
      let equal = same_candidate-eq back before (ground arith) in q ∙ (λ i. (ok (equal i), still i))

  contain_effect-exact :
      (effect : Option SideEffect) (w : W) {e : Option SideEffect} {w' : W}
      → contain_effect git before effect w ≡ (ok e, w')
      → ((w' ≡ w) → effect ≡ none → git.snapshot_candidate_state w' ≡ ok before)
      → ((v : W) (s : CandidateState)
          → git.restore_candidate_state before v ≡ (ok s, w')
          → git.snapshot_candidate_state w' ≡ ok s)
      → (git.snapshot_candidate_state w' ≡ ok before) × (kept e ≡ true)
  unfolding contain_effect
  contain_effect-exact none w h unchanged law =
      let (t, still) = giving-ok h in (unchanged (sym still) refl, rw (← t) refl)
  contain_effect-exact (some effect) w h unchanged law =
      let (t, k) = continue-refusing (not effect.ownership_preserved) ownership_changed w _ h in
      let (u, w2, p, g) = continue-ok (restore_exact git before w) _ k in
      let (r, still) = giving-ok g in
      (
        law w before (restore_exact-state w p ∙ ap (λ v. (ok before, v)) still),
        rw (← r) (ground arith),
      )

  -- When a trusted process was contained, the candidate state is exactly the one before it, and what
  -- the process did to it kept Git ownership. A restored state is the state that is read afterwards.
  pub contain_trusted_process-exact :
      (w : W) {e : Option SideEffect} {w' : W}
      → contain_trusted_process git before w ≡ (ok e, w')
      → ((v : W) (s : CandidateState)
          → git.restore_candidate_state before v ≡ (ok s, w')
          → git.snapshot_candidate_state w' ≡ ok s)
      → (git.snapshot_candidate_state w' ≡ ok before) × (kept e ≡ true)
  unfolding contain_trusted_process
  contain_trusted_process-exact w h law =
      let (effect, w1, p, k) =
        continue-ok (catching unobserved (observe_side_effects git before) w) _ h in
      let q = translated-ok unobserved (observe_side_effects git before w) p in
      contain_effect-exact effect w1 k
        (λ same nothing. rw same (observe-unchanged w (rw nothing at q))) law
