-- ===== src/Attempt/Audit.antt =====
-- attempt_transaction.py: the classification of what an attempt did to Git.
use meta_harness.Common.{
  String, Bool, true, false, not, ◌&&◌, ◌||◌, Option, none, some, is_some, List, [], ◌∷◌, ◌++◌,
  ◌==◌, if◌then◌else◌,
}
use meta_harness.Common.Outcome.{Outcome, ok, raised}
use meta_harness.Common.Text.{has_prefix}
use meta_harness.Common.Names.{mem, minus, is_nil, same_text}
use meta_harness.Attempt.Ownership.{Ref, GitOwnership}

-- What a call of the git executable raises.
pub data GitFailure : Type 0 where
  git_error os_error value_error : GitFailure

pub data RefChange : Type 0 where
  ref_created ref_moved ref_deleted : String → RefChange

-- The mutation that makes an audit fatal. Its code is `TREE_MODIFIED_OUTSIDE_AUTHORITY`.
pub data Fatal : Type 0 where
  branches_lost : List String → Fatal
  remotes_changed : Fatal
  refs_changed : List RefChange → Fatal
  head_elsewhere head_changed history_rewritten : Fatal

pub record GitMutationAudit : Type 0 where
  pub fatal : Option Fatal
  pub worker_commits : Bool
  pub created_branches : List String
  pub adopted_branch : Option String

-- `GitMutationAudit.recoverable`
unfoldable pub recoverable : GitMutationAudit → Bool
recoverable a =
    not (is_some a.fatal)
    && (a.worker_commits || not (is_nil a.created_branches) || is_some a.adopted_branch)

abbrev fatal_audit : Fatal → GitMutationAudit
fatal_audit f = record {
  fatal = some f;
  worker_commits = false;
  created_branches = [];
  adopted_branch = none;
}

-- `dict(refs).get(name)`
unfoldable pub value_of : List Ref → String → Option String
value_of [] n = none
value_of (r ∷ rs) n = let rest = value_of rs n in if n == r.name then some r.value else rest

unfoldable pub remote_refs : List Ref → List Ref
remote_refs [] = []
remote_refs (r ∷ rs) =
    let rest = remote_refs rs in if has_prefix r.name "refs/remotes/" then r ∷ rest else rest

unfoldable pub same_refs : List Ref → List Ref → Bool
same_refs [] [] = true
same_refs (r ∷ rs) (s ∷ ss) = (r.name == s.name) && (r.value == s.value) && same_refs rs ss
same_refs _ _ = false

-- The names that `_foreign_ref_changes` passes over.
unfoldable pub exempt : String → List String → String → Bool
exempt branch_ref created n = (n == branch_ref) || mem n created || has_prefix n "refs/remotes/"

unfoldable pub ref_change : Bool → Option String → Ref → List RefChange
ref_change true before r = []
ref_change false none r = ref_created r.name ∷ []
ref_change false (some v) r = if v == r.value then [] else ref_moved r.name ∷ []

unfoldable pub moved_refs : (String → Bool) → List Ref → List Ref → List RefChange
unfolding ref_change
moved_refs skip before [] = []
moved_refs skip before (r ∷ rs) =
    ref_change (skip r.name) (value_of before r.name) r ++ moved_refs skip before rs

unfoldable pub lost_refs : (String → Bool) → List Ref → List Ref → List RefChange
lost_refs skip after [] = []
lost_refs skip after (r ∷ rs) =
    let rest = lost_refs skip after rs in
    if skip r.name || is_some (value_of after r.name) then rest else ref_deleted r.name ∷ rest

-- `_foreign_ref_changes`
unfoldable pub foreign_ref_changes :
    GitOwnership → GitOwnership → String → List String → List RefChange
foreign_ref_changes before after branch_ref created =
    moved_refs (exempt branch_ref created) before.refs after.refs
    ++ lost_refs (exempt branch_ref created) after.refs before.refs

-- `is_ancestor(repo, ...)` of the repository that was given, or no repository
abbrev pub Ancestry : Type 0
Ancestry = Option (String → String → Outcome GitFailure Bool)

caught_answer : Outcome GitFailure Bool → Outcome GitFailure Bool
caught_answer (raised GitFailure.git_error) = ok false
caught_answer answer = answer

-- `_moves_forward`: only a `GitError` is caught.
unfoldable pub moves_forward : String → String → String → Ancestry → Outcome GitFailure Bool
unfolding caught_answer
moves_forward previous_head head base_sha none = ok false
moves_forward previous_head head base_sha (some is_ancestor) =
    if not (previous_head == base_sha) || (head == base_sha)
    then ok false
    else caught_answer (is_ancestor base_sha head)

unfoldable pub adopted_of : GitOwnership → Option String → String → List String → Option String
adopted_of before none branch_ref created = none
adopted_of before (some r) branch_ref created =
    if not (r == branch_ref) && mem r created && not (is_some (value_of before.refs r))
    then some r
    else none

-- `head_ref in {branch_ref, adopted}`
unfoldable pub at_home : Option String → String → Option String → Bool
at_home head_ref branch_ref adopted =
    same_text head_ref (some branch_ref) || same_text head_ref adopted

-- A head that moved: where it may not be, and whether it moved forward.
unfoldable pub forward_audit :
    Bool
    → List String
    → Option String
    → Outcome GitFailure Bool
    → Outcome GitFailure GitMutationAudit
forward_audit stray created adopted (raised e) = raised e
forward_audit true created adopted (ok moved) = ok (fatal_audit head_changed)
forward_audit false created adopted (ok false) = ok (fatal_audit history_rewritten)
forward_audit false created adopted (ok true) = ok (record {
  fatal = none;
  worker_commits = true;
  created_branches = created;
  adopted_branch = adopted;
})

-- The end of the audit: what the head of the worktree says.
unfoldable pub head_audit :
    GitOwnership
    → GitOwnership
    → String
    → String
    → Ancestry
    → List String
    → Option String
    → Outcome GitFailure GitMutationAudit
head_audit before after branch_ref base_sha repo created adopted =
    if not (at_home after.head_ref branch_ref adopted)
    then ok (fatal_audit head_elsewhere)
    else if after.head == base_sha
    then ok (record {
      fatal = none;
      worker_commits = false;
      created_branches = created;
      adopted_branch = adopted;
    })
    else forward_audit (not (is_some adopted) && not (same_text after.head_ref (some branch_ref)))
        created adopted (moves_forward before.head after.head base_sha repo)

unfoldable pub audit_git_mutation :
    GitOwnership → GitOwnership → String → String → Ancestry → Outcome GitFailure GitMutationAudit
audit_git_mutation before after branch_ref base_sha repo =
    let created = minus after.branches before.branches in
    let deleted = minus before.branches after.branches in
    let foreign = foreign_ref_changes before after branch_ref created in
    if not (is_nil deleted)
    then ok (fatal_audit (branches_lost deleted))
    else if not (same_refs (remote_refs after.refs) (remote_refs before.refs))
    then ok (fatal_audit remotes_changed)
    else if not (is_nil foreign)
    then ok (fatal_audit (refs_changed foreign))
    else head_audit before after branch_ref base_sha repo created
        (adopted_of before after.head_ref branch_ref created)
