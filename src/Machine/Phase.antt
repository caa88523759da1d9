-- ===== src/Machine/Phase.antt =====
-- models.py: the operations of a run, the phase graph and the operations that can complete a run.
use meta_harness.Common.{
  ℕ, String, Bool, false, ◌||◌, Option, none, some, List, [], ◌∷◌, nat_eq, ◌==◌, if◌then◌else◌,
}

pub data RunPhase : Type 0 where
  context planner plan_approval worktree_setup implement_step deterministic_gate : RunPhase
  audit candidate_ready candidate_push publish : RunPhase

-- `RunPhase.value`
unfoldable pub phase_value : RunPhase → String
phase_value context = "context"
phase_value planner = "planner"
phase_value plan_approval = "plan_approval"
phase_value worktree_setup = "worktree_setup"
phase_value implement_step = "implement_step"
phase_value deterministic_gate = "deterministic_gate"
phase_value audit = "audit"
phase_value candidate_ready = "candidate_ready"
phase_value candidate_push = "candidate_push"
phase_value publish = "publish"

abbrev pub all_phases : List RunPhase
all_phases =
    context ∷ planner ∷ plan_approval ∷ worktree_setup ∷ implement_step ∷ deterministic_gate ∷ audit
    ∷ candidate_ready ∷ candidate_push ∷ publish ∷ []

unfoldable pub find_phase : List RunPhase → String → Option RunPhase
unfolding phase_value
find_phase [] s = none
find_phase (p ∷ ps) s = if phase_value p == s then some p else find_phase ps s

-- `RunPhase(text)`: the member with that value, or `ValueError`.
unfoldable pub phase_of_text : String → Option RunPhase
unfolding find_phase
phase_of_text = find_phase all_phases

abbrev phase_index : RunPhase → ℕ
phase_index context = 0
phase_index planner = 1
phase_index plan_approval = 2
phase_index worktree_setup = 3
phase_index implement_step = 4
phase_index deterministic_gate = 5
phase_index audit = 6
phase_index candidate_ready = 7
phase_index candidate_push = 8
phase_index publish = 9

-- `a is b`
abbrev pub phase_eq : RunPhase → RunPhase → Bool
phase_eq a b = nat_eq (phase_index a) (phase_index b)

-- `a in phases`
unfoldable pub phase_in : RunPhase → List RunPhase → Bool
phase_in p [] = false
phase_in p (q ∷ qs) = phase_eq p q || phase_in p qs

-- `_RUN_PHASE_SUCCESSORS`
unfoldable pub phase_successors : RunPhase → List RunPhase
phase_successors context = planner ∷ []
phase_successors planner = plan_approval ∷ implement_step ∷ candidate_ready ∷ []
phase_successors plan_approval = worktree_setup ∷ []
phase_successors worktree_setup = implement_step ∷ []
phase_successors implement_step = implement_step ∷ deterministic_gate ∷ []
phase_successors deterministic_gate = deterministic_gate ∷ candidate_ready ∷ audit ∷ planner ∷ []
phase_successors audit = deterministic_gate ∷ []
phase_successors candidate_ready = candidate_push ∷ []
phase_successors candidate_push = publish ∷ []
phase_successors publish = []

-- `_RUN_COMPLETABLE_PHASES`
unfoldable pub completable_phases : List RunPhase
completable_phases = candidate_push ∷ publish ∷ planner ∷ []
