-- ===== src/Attempt/Recoverable.antt =====
-- What an audit that is not fatal says of the refs, the branches and the head.
use meta_harness.Common.{
  String, ◌≡◌, refl, sym, ap, ◌∙◌, ◌⊎◌, inl, inr, Bool, true, false, not, ◌&&◌, ◌||◌, Option, none,
  some, is_some, List, [], ◌∷◌, ◌++◌, ◌==◌, arith, eq_iff, Bool-cases, Option-cases,
}
use meta_harness.Common.Outcome.{Outcome, ok, raised}
use meta_harness.Common.Names.{minus, is_nil, same_text, nil-test}
use meta_harness.Attempt.Ownership.{Ref, GitOwnership}
use meta_harness.Attempt.Audit.{
  GitFailure, ref_change, value_of, moved_refs, lost_refs, foreign_ref_changes, exempt, Ancestry,
  moves_forward, GitMutationAudit, at_home, adopted_of, forward_audit, head_audit,
  audit_git_mutation, same_refs, remote_refs,
}

append-nil : {A : Type 0} (xs ys : List A) → xs ++ ys ≡ [] → (xs ≡ []) × (ys ≡ [])
append-nil [] ys h = (refl, h)
append-nil (x ∷ xs) ys h = cc

ref_change-kept : (v : Option String) (r : Ref) → ref_change false v r ≡ [] → v ≡ some r.value
unfolding ref_change
ref_change-kept none r h = cc
ref_change-kept (some v) r h = elim (Bool-cases (v == r.value)) [
  | inl e ↦ ap some ((eq_iff v r.value).0 e)
  | inr e ↦ ground arith
]

moved_refs-kept :
    (skip : String → Bool) (before refs : List Ref) (n v : String)
    → moved_refs skip before refs ≡ []
    → skip n ≡ false
    → value_of refs n ≡ some v
    → value_of before n ≡ some v
unfolding moved_refs value_of
moved_refs-kept skip before [] n v h s k = cc
moved_refs-kept skip before (r ∷ rs) n v h s k =
    let (first, others) =
      append-nil (ref_change (skip r.name) (value_of before r.name) r) (moved_refs skip before rs)
        h in
    elim (Bool-cases (n == r.name)) [
      | inr e ↦ moved_refs-kept skip before rs n v others s (rw e at k)
      | inl e ↦
          let same = (eq_iff n r.name).0 e in
          let free = ap skip (sym same) ∙ s in
          ap (value_of before) same
          ∙ (ref_change-kept (value_of before r.name) r (rw free at first) ∙ (rw e at k))
    ]

lost_refs-kept :
    (skip : String → Bool) (after refs : List Ref) (n v : String)
    → lost_refs skip after refs ≡ []
    → skip n ≡ false
    → value_of refs n ≡ some v
    → is_some (value_of after n) ≡ true
unfolding lost_refs value_of
lost_refs-kept skip after [] n v h s k = cc
lost_refs-kept skip after (r ∷ rs) n v h s k =
    elim (Bool-cases (skip r.name || is_some (value_of after r.name))) [
      | inr e ↦ ground arith
      | inl e ↦ elim (Bool-cases (n == r.name)) [
        | inr d ↦ lost_refs-kept skip after rs n v (rw e at h) s (rw d at k)
        | inl d ↦ let same = (eq_iff n r.name).0 d in rw (← same, s) at e
      ]
    ]

foreign_kept :
    (before after : GitOwnership) (branch_ref : String) (created : List String)
    → foreign_ref_changes before after branch_ref created ≡ []
    → (n : String) → exempt branch_ref created n ≡ false
    → value_of after.refs n ≡ value_of before.refs n
unfolding foreign_ref_changes
foreign_kept before after branch_ref created h n free =
    let skip = exempt branch_ref created in
    let (moved, lost) =
      append-nil (moved_refs skip before.refs after.refs) (lost_refs skip after.refs before.refs)
        h in
    elim (Option-cases (value_of after.refs n)) [
      | inr (v, e) ↦ e ∙ sym (moved_refs-kept skip before.refs after.refs n v moved free e)
      | inl e ↦ elim (Option-cases (value_of before.refs n)) [
        | inl d ↦ e ∙ sym d
        | inr (v, d) ↦ let found = lost_refs-kept skip after.refs before.refs n v lost free d in cc
      ]
    ]

forward_audit-benign :
    (stray : Bool) (created : List String) (adopted : Option String)
    (moved : Outcome GitFailure Bool) {x : GitMutationAudit}
    → forward_audit stray created adopted moved ≡ ok x
    → x.fatal ≡ none
    → (moved ≡ ok true) × (x.created_branches ≡ created) × (x.adopted_branch ≡ adopted)
unfolding forward_audit
forward_audit-benign stray created adopted (raised e) h f = cc
forward_audit-benign true created adopted (ok b) h f = cc
forward_audit-benign false created adopted (ok false) h f = cc
forward_audit-benign false created adopted (ok true) h f = (refl, cc, cc)

module _ (before after : GitOwnership) (branch_ref base_sha : String) (repo : Ancestry) where
  head_audit-benign :
      (created : List String) (adopted : Option String) {x : GitMutationAudit}
      → head_audit before after branch_ref base_sha repo created adopted ≡ ok x
      → x.fatal ≡ none
      → (x.created_branches ≡ created)
        × (at_home after.head_ref branch_ref x.adopted_branch ≡ true)
        × ((after.head ≡ base_sha) ⊎ (moves_forward before.head after.head base_sha repo ≡ ok true))
  unfolding head_audit
  head_audit-benign created adopted h f =
      elim (Bool-cases (at_home after.head_ref branch_ref adopted)) [
        | inr e ↦ cc
        | inl e ↦ elim (Bool-cases (after.head == base_sha)) [
          | inl d ↦ (cc, cc, inl ((eq_iff after.head base_sha).0 d))
          | inr d ↦
              let (moved, c, a) =
                forward_audit-benign
                  (not (is_some adopted) && not (same_text after.head_ref (some branch_ref)))
                  created adopted (moves_forward before.head after.head base_sha repo)
                  (rw (e, d) at h) f in
              (c, rw a e, inr moved)
        ]
      ]

  -- An audit that is not fatal: no branch was deleted, the remote-tracking refs are the same, every
  -- ref but the run branch, the branches that it names as created and the remote-tracking ones has
  -- the value it had, and the head is at the expected commit or descends from it. A head that names
  -- a branch names the run branch or the adopted one.
  pub audit_git_mutation-contained :
      (name : String) {x : GitMutationAudit}
      → audit_git_mutation before after branch_ref base_sha repo ≡ ok x
      → x.fatal ≡ none
      → exempt branch_ref x.created_branches name ≡ false
      → (minus before.branches after.branches ≡ [])
        × (same_refs (remote_refs after.refs) (remote_refs before.refs) ≡ true)
        × (value_of after.refs name ≡ value_of before.refs name)
        × (at_home after.head_ref branch_ref x.adopted_branch ≡ true)
        × ((after.head ≡ base_sha) ⊎ (moves_forward before.head after.head base_sha repo ≡ ok true))
  unfolding audit_git_mutation
  audit_git_mutation-contained name h f free =
      let created = minus after.branches before.branches in
      let foreign = foreign_ref_changes before after branch_ref created in
      elim (Bool-cases (not (is_nil (minus before.branches after.branches)))) [
        | inl e ↦ cc
        | inr e ↦ elim (Bool-cases (same_refs (remote_refs after.refs) (remote_refs before.refs))) [
          | inr d ↦ cc
          | inl d ↦ elim (Bool-cases (not (is_nil foreign))) [
            | inl g ↦ cc
            | inr g ↦
                let (c, home, commits) =
                  head_audit-benign created (adopted_of before after.head_ref branch_ref created)
                    (rw (e, d, g) at h) f in
                (
                  nil-test _ e,
                  d,
                  foreign_kept before after branch_ref created (nil-test foreign g) name
                      (rw c at free),
                  home,
                  commits,
                )
          ]
        ]
      ]
