-- ===== src/Commit/Gated.antt =====
-- commit_gate.py: the result of `commit_safety_gate`.
use mathlib.Core.Path.{subst}
use meta_harness.Common.{
  String, ◌≡◌, refl, sym, ap, ◌∙◌, true, false, not, ◌&&◌, ◌||◌, Option, none, some, List, [], ◌∷◌,
  ◌==◌, ◌⊎◌, inl, inr, eq_iff, arith, Bool-cases, or-false,
}
use meta_harness.Common.Outcome.{
  Outcome, ok, ◌>>◌, bind-ok, refuse_if-eq-ok, map_raised, map_raised-eq-ok, ok-injective,
}
use meta_harness.Common.Lists.{All}
use meta_harness.Common.Names.{mem, minus, from_keys, is_nil, nil-test, equal-test}
use meta_harness.Common.Text.{is_empty, cut_text}
use meta_harness.Attempt.Audit.{GitFailure}
use meta_harness.Attempt.Transaction.{Git}
use meta_harness.Commit.Safety.{
  DeferredVerification, CommitSafetyResult, CommitError, not_verified, security_not_passed,
  head_changed, tree_differs, worktree_dirty, git_raised, GateRequest, dirty_line, dirty_lines,
  stripped, make_deferred, deferred_of, scope_refusal, commit_safety_gate,
}

-- A deferred verification with a reason, a dependent step and a contract.
pub record IsComplete (d : DeferredVerification) : Type 0 where
  pub reasoned : is_empty d.reason ≡ false
  pub dependent : is_nil d.dependent_step_ids ≡ false
  pub contracted : is_empty d.command_or_contract ≡ false

-- The metadata of the result: none for a passed verification, complete for a deferred one.
abbrev pub IsJustified : String → Option DeferredVerification → Type 0
IsJustified status none = status ≡ "passed"
IsJustified status (some d) = (status ≡ "deferred") × IsComplete d

cut_text-is_empty :
    (s : String)
    → is_empty s ≡ false
    → (is_empty (cut_text 2048 s) ≡ false) × (is_empty (cut_text 4096 s) ≡ false)
unfolding cut_text
cut_text-is_empty String.[] h = cc
cut_text-is_empty (String.◌∷◌ c s) h = (refl, refl)

make_deferred-IsJustified :
    (q : GateRequest) {o : Option DeferredVerification}
    → q.verification_status ≡ "deferred"
    → make_deferred q ≡ ok o
    → IsJustified q.verification_status o
unfolding make_deferred
make_deferred-IsJustified q e h =
    let reason = stripped q.deferred_reason in
    let dependents = from_keys [] q.dependent_step_ids in
    let contract = stripped q.deferred_command_or_contract in
    let (tests, k) =
      refuse_if-eq-ok (is_empty reason || (is_nil dependents || is_empty contract)) _ _ h in
    let (a, bc) = or-false (is_empty reason) _ tests in
    let (b, c) = or-false (is_nil dependents) _ bc in
    rw (← ok-injective k) (
      e,
      record {
        reasoned = (cut_text-is_empty reason a).0;
        dependent = b;
        contracted = (cut_text-is_empty contract c).1;
      },
    )

deferred_of-IsJustified :
    (q : GateRequest) {o : Option DeferredVerification}
    → (q.verification_status == "passed" || q.verification_status == "deferred") ≡ true
    → deferred_of q ≡ ok o
    → IsJustified q.verification_status o
unfolding deferred_of
deferred_of-IsJustified q {o} known h = elim (Bool-cases (q.verification_status == "deferred")) [
  | inl e ↦ make_deferred-IsJustified q ((eq_iff q.verification_status "deferred").0 e) (rw e at h)
  | inr e ↦
      let (tests, k) = refuse_if-eq-ok _ _ _ (rw e at h) in
      let nothing : o ≡ none = sym (ok-injective k) in rw nothing (passed (rw e at known))
]
  where
    passed : (q.verification_status == "passed" || false) ≡ true → q.verification_status ≡ "passed"
    passed k = ground (arith, eq_iff q.verification_status "passed")

dirty_lines-nil : (xs : List String) → dirty_lines xs ≡ [] → All (λ x. dirty_line x ≡ false) xs
unfolding dirty_lines
dirty_lines-nil [] h = tt
dirty_lines-nil (x ∷ xs) h = elim (Bool-cases (dirty_line x)) [
  | inl e ↦ cc (rw e at h)
  | inr e ↦ (e, dirty_lines-nil xs (rw e at h))
]

minus-All : (xs ys : List String) → minus xs ys ≡ [] → All (λ x. mem x ys ≡ true) xs
unfolding minus
minus-All [] ys h = tt
minus-All (x ∷ xs) ys h = elim (Bool-cases (mem x ys)) [
  | inl e ↦ (e, minus-All xs ys (rw e at h))
  | inr e ↦ cc (rw e at h)
]

module _ {W : Type 0} (git : Git W) (resolve_tree : String → W → Outcome GitFailure String) where
  -- What the gate has read of the world `w`, and what it gives back.
  pub record IsSafe (q : GateRequest) (w : W) (r : CommitSafetyResult) : Type 0 where
    pub secure : q.security_passed ≡ true
    pub head : git.current_head w ≡ ok q.parent_sha
    pub index : git.index_tree_sha w ≡ ok q.tree_sha
    pub candidate : git.candidate_tree_sha w ≡ ok q.tree_sha
    pub status : List String
    pub status_read : git.status_porcelain w ≡ ok status
    pub clean : All (λ line. dirty_line line ≡ false) status
    pub parent_tree : String
    pub parent_read : resolve_tree q.parent_sha w ≡ ok parent_tree
    pub changes : git.changed_paths_between_trees parent_tree q.tree_sha w ≡ ok r.changed_paths
    pub inside :
        (q.mutable_scope ≡ []) ⊎ All (λ path. mem path q.mutable_scope ≡ true) r.changed_paths
    pub scanned : git.scan_staged_security w ≡ ok []
    pub justified : IsJustified q.verification_status r.deferred
    pub same_tree : r.tree_sha ≡ q.tree_sha
    pub same_parent : r.parent_sha ≡ q.parent_sha
    pub same_status : r.verification_status ≡ q.verification_status

  scope-inside :
      (scope changed : List String) {r : CommitSafetyResult}
      (rest : Outcome CommitError CommitSafetyResult)
      → (scope_refusal scope (minus changed scope) >> rest) ≡ ok r
      → ((scope ≡ []) ⊎ All (λ path. mem path scope ≡ true) changed) × (rest ≡ ok r)
  scope-inside scope changed rest h =
      let (test, k) =
        refuse_if-eq-ok (not (is_nil scope) && not (is_nil (minus changed scope))) _ _ h in
      (
        elim (Bool-cases (not (is_nil scope))) [
          | inr e ↦ inl (nil-test scope e)
          | inl e ↦ inr (minus-All changed scope (nil-test _ (rw e at test)))
        ],
        k,
      )

  -- When the gate returns, the security gate of the caller had passed; the head is the parent, the index
  -- and the worktree are exactly the accepted tree, with no unstaged or untracked line; the changed paths
  -- are those between the two trees, and inside the mutable scope unless that is empty; the scan of the
  -- staged blobs found nothing; and the result carries no deferral for a passed verification, and one
  -- with a reason, a dependent step and a contract for a deferred one.
  pub commit_safety_gate-IsSafe :
      (q : GateRequest) (w : W) {r : CommitSafetyResult}
      → commit_safety_gate git resolve_tree q w ≡ ok r
      → IsSafe q w r
  unfolding commit_safety_gate
  commit_safety_gate-IsSafe q w h =
      let (known, k1) = refuse_if-eq-ok _ not_verified _ h in
      let (secure, k2) = refuse_if-eq-ok (not q.security_passed) security_not_passed _ k1 in
      let (head, p3, k3) = bind-ok (map_raised git_raised (git.current_head w)) _ k2 in
      let (t4, k4) = refuse_if-eq-ok (not (head == q.parent_sha)) head_changed _ k3 in
      let (index, p5, k5) = bind-ok (map_raised git_raised (git.index_tree_sha w)) _ k4 in
      let (t6, k6) = refuse_if-eq-ok (not (index == q.tree_sha)) tree_differs _ k5 in
      let (candidate, p7, k7) = bind-ok (map_raised git_raised (git.candidate_tree_sha w)) _ k6 in
      let (t8, k8) = refuse_if-eq-ok (not (candidate == q.tree_sha)) tree_differs _ k7 in
      let (status, p9, k9) = bind-ok (map_raised git_raised (git.status_porcelain w)) _ k8 in
      let (t10, k10) = refuse_if-eq-ok (not (is_nil (dirty_lines status))) worktree_dirty _ k9 in
      let (parent, p11, k11) =
        bind-ok (map_raised git_raised (resolve_tree q.parent_sha w)) _ k10 in
      let between = git.changed_paths_between_trees parent q.tree_sha w in
      let (changed, p12, k12) = bind-ok (map_raised git_raised between) _ k11 in
      let (inside, k13) = scope-inside q.mutable_scope changed _ k12 in
      let (failures, p14, k14) =
        bind-ok (map_raised git_raised (git.scan_staged_security w)) _ k13 in
      let (t15, k15) = refuse_if-eq-ok (not (is_nil failures)) _ _ k14 in
      let (deferred, p16, k16) = bind-ok (deferred_of q) _ k15 in
      subst (IsSafe q w) (ok-injective k16) (record {
        secure = ground arith;
        head = map_raised-eq-ok git_raised _ p3 ∙ ap ok (equal-test head _ t4);
        index = map_raised-eq-ok git_raised _ p5 ∙ ap ok (equal-test index _ t6);
        candidate = map_raised-eq-ok git_raised _ p7 ∙ ap ok (equal-test candidate _ t8);
        status = status;
        status_read = map_raised-eq-ok git_raised _ p9;
        clean = dirty_lines-nil status (nil-test _ t10);
        parent_tree = parent;
        parent_read = map_raised-eq-ok git_raised _ p11;
        changes = map_raised-eq-ok git_raised _ p12;
        inside = inside;
        scanned = map_raised-eq-ok git_raised _ p14 ∙ ap ok (nil-test failures t15);
        justified = deferred_of-IsJustified q (ground arith) p16;
        same_tree = refl;
        same_parent = refl;
        same_status = refl;
      })
