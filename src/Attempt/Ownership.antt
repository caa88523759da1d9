-- ===== src/Attempt/Ownership.antt =====
-- attempt_transaction.py: Git ownership, its violations, and what a status line says.
use Prim.Native.Char.{code}
use meta_harness.Common.{
  String, Bool, true, false, not, Option, some, List, [], ◌∷◌, ◌++◌, ◌==◌, nat_eq, if◌then◌else◌,
}
use meta_harness.Common.Text.{has_prefix}
use meta_harness.Common.Names.{minus, same_text}

pub record Ref : Type 0 where
  pub name : String
  pub value : String

pub record GitOwnership : Type 0 where
  pub head_ref : Option String
  pub head : String
  pub branches : List String
  pub worktrees : List String
  pub refs : List Ref

pub data Problem : Type 0 where
  head_switched head_moved : Problem
  branches_created branches_deleted worktrees_created worktrees_removed : List String → Problem

abbrev problem_if : Bool → Problem → List Problem
problem_if true p = p ∷ []
problem_if false p = []

abbrev unless_nil : List String → (List String → Problem) → List Problem
unless_nil [] p = []
unless_nil (x ∷ xs) p = p (x ∷ xs) ∷ []

unfoldable pub ownership_violations : GitOwnership → GitOwnership → String → String → List Problem
ownership_violations before after branch_ref base_sha =
    problem_if (not (same_text after.head_ref (some branch_ref))) head_switched
    ++ problem_if (not (after.head == base_sha)) head_moved
    ++ unless_nil (minus after.branches before.branches) branches_created
    ++ unless_nil (minus before.branches after.branches) branches_deleted
    ++ unless_nil (minus after.worktrees before.worktrees) worktrees_created
    ++ unless_nil (minus before.worktrees after.worktrees) worktrees_removed

pub data Dirt : Type 0 where
  untracked unstaged : String → Dirt

-- `len(line) >= 2 and line[1] != " "`
unfoldable pub second_marked : String → Bool
second_marked (String.◌∷◌ a (String.◌∷◌ b rest)) = not (nat_eq (code b) b' ')
second_marked line = false

unfoldable pub line_dirt : String → List Dirt
unfolding has_prefix second_marked
line_dirt line =
    if has_prefix line "?? "
    then untracked line ∷ []
    else if second_marked line
    then unstaged line ∷ []
    else []

unfoldable pub status_has_unstaged_or_untracked : List String → List Dirt
unfolding line_dirt
status_has_unstaged_or_untracked [] = []
status_has_unstaged_or_untracked (line ∷ lines) =
    line_dirt line ++ status_has_unstaged_or_untracked lines
