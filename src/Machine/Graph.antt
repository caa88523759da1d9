-- ===== src/Machine/Graph.antt =====
-- The phase graph as a relation: which operation may hand over to which.
use meta_harness.Common.{arith, ◌≡◌, refl, true}
use meta_harness.Machine.Phase.{
  RunPhase, context, planner, plan_approval, worktree_setup, implement_step, deterministic_gate,
  audit, candidate_ready, candidate_push, publish, phase_eq, phase_in, phase_successors,
}

infix 40 ◌⟶◌
pub data ◌⟶◌ : RunPhase → RunPhase → Type 0 where
  plan : context ⟶ planner
  present : planner ⟶ plan_approval
  implement_plan : planner ⟶ implement_step
  accept_plan : planner ⟶ candidate_ready
  approve : plan_approval ⟶ worktree_setup
  set_up : worktree_setup ⟶ implement_step
  next_step : implement_step ⟶ implement_step
  check : implement_step ⟶ deterministic_gate
  check_again : deterministic_gate ⟶ deterministic_gate
  accept : deterministic_gate ⟶ candidate_ready
  review : deterministic_gate ⟶ audit
  next_milestone : deterministic_gate ⟶ planner
  check_audit : audit ⟶ deterministic_gate
  push : candidate_ready ⟶ candidate_push
  release : candidate_push ⟶ publish

pub phase_in→⟶ : (p t : RunPhase) → phase_in t (phase_successors p) ≡ true → p ⟶ t
unfolding phase_in phase_successors
phase_in→⟶ context planner h = plan
phase_in→⟶ planner plan_approval h = present
phase_in→⟶ planner implement_step h = implement_plan
phase_in→⟶ planner candidate_ready h = accept_plan
phase_in→⟶ plan_approval worktree_setup h = approve
phase_in→⟶ worktree_setup implement_step h = set_up
phase_in→⟶ implement_step implement_step h = next_step
phase_in→⟶ implement_step deterministic_gate h = check
phase_in→⟶ deterministic_gate deterministic_gate h = check_again
phase_in→⟶ deterministic_gate candidate_ready h = accept
phase_in→⟶ deterministic_gate audit h = review
phase_in→⟶ deterministic_gate planner h = next_milestone
phase_in→⟶ audit deterministic_gate h = check_audit
phase_in→⟶ candidate_ready candidate_push h = push
phase_in→⟶ candidate_push publish h = release
phase_in→⟶ _ _ h = cc

pub ⟶→phase_in : {p t : RunPhase} → p ⟶ t → phase_in t (phase_successors p) ≡ true
unfolding phase_in phase_successors
⟶→phase_in plan = refl
⟶→phase_in present = refl
⟶→phase_in _ = refl

pub phase_eq→≡ : (p q : RunPhase) → phase_eq p q ≡ true → p ≡ q
phase_eq→≡ context q h = ground arith
phase_eq→≡ _ q h = ground arith
