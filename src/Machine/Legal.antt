-- ===== src/Machine/Legal.antt =====
-- The legal steps of a run as a relation, and the proof that `transition` is exactly that relation.
use meta_harness.Common.{
  String, ◌≡◌, refl, ap, ◌↔◌, inl, inr, true, false, Option, none, some, arith, eq_iff, Bool-cases,
}
use meta_harness.Common.Outcome.{ok}
use meta_harness.Machine.Phase.{
  RunPhase, planner, plan_approval, candidate_push, publish, phase_in, phase_successors,
  completable_phases,
}
use meta_harness.Machine.State.{
  RunDisposition, running, wait_external, wait_human, completed, failed, terminal, RunMachineState,
  run_reason, make_state, RunEventKind, advance_kind, wait_kind, fail_kind, complete_kind,
  resume_kind, RunEvent,
}
use meta_harness.Machine.Transition.{transition, is_spec_decision}
use meta_harness.Machine.Clean.{IsClean}
use meta_harness.Machine.Graph.{◌⟶◌, phase_in→⟶, ⟶→phase_in}

abbrev pub state : Option RunPhase → RunDisposition → Option String → RunMachineState
state p d r = record { phase = p; disposition = d; reason = r }

pub data CanComplete : RunPhase → Type 0 where
  at_push : CanComplete candidate_push
  at_publish : CanComplete publish
  at_planner : CanComplete planner

-- A waiting run, a failed run, or a running one that waits for the approval of its plan.
pub data CanResume (m : RunMachineState) : Type 0 where
  external : m.disposition ≡ wait_external → CanResume m
  human : m.disposition ≡ wait_human → CanResume m
  retry : m.disposition ≡ failed → CanResume m
  approval : m.disposition ≡ running → m.phase ≡ some plan_approval → CanResume m

pub data Step (m : RunMachineState) (e : RunEvent) (n : RunMachineState) : Type 0 where
  advances :
      {p t : RunPhase}
      → e.kind ≡ advance_kind
      → m.disposition ≡ running
      → m.phase ≡ some p
      → e.target ≡ some t
      → p ⟶ t
      → n ≡ state (some t) running none
      → Step m e n
  waits_external :
      e.kind ≡ wait_kind
      → terminal m.disposition ≡ false
      → e.posture ≡ some wait_external
      → n ≡ state m.phase wait_external e.reason
      → Step m e n
  waits_human :
      e.kind ≡ wait_kind
      → terminal m.disposition ≡ false
      → e.posture ≡ some wait_human
      → e.reason ≡ some "SPEC_DECISION_REQUIRED"
      → n ≡ state m.phase wait_human e.reason
      → Step m e n
  fails :
      e.kind ≡ fail_kind
      → terminal m.disposition ≡ false
      → n ≡ state m.phase failed e.reason
      → Step m e n
  completes :
      {p : RunPhase}
      → e.kind ≡ complete_kind
      → m.disposition ≡ running
      → m.phase ≡ some p
      → CanComplete p
      → n ≡ state m.phase completed none
      → Step m e n
  resumes : e.kind ≡ resume_kind → CanResume m → n ≡ state m.phase running none → Step m e n

is_spec_decision-eq :
    (r : Option String) → is_spec_decision r ≡ true → r ≡ some "SPEC_DECISION_REQUIRED"
unfolding is_spec_decision
is_spec_decision-eq none h = cc
is_spec_decision-eq (some s) h = ap some ((eq_iff s "SPEC_DECISION_REQUIRED").0 h)

pub is_spec_decision_self : is_spec_decision (some "SPEC_DECISION_REQUIRED") ≡ true
unfolding is_spec_decision
is_spec_decision_self = refl

phase_in→CanComplete : (p : RunPhase) → phase_in p completable_phases ≡ true → CanComplete p
unfolding phase_in completable_phases
phase_in→CanComplete candidate_push h = at_push
phase_in→CanComplete publish h = at_publish
phase_in→CanComplete planner h = at_planner
phase_in→CanComplete _ h = cc

CanComplete→phase_in : {p : RunPhase} → CanComplete p → phase_in p completable_phases ≡ true
unfolding phase_in completable_phases
CanComplete→phase_in at_push = refl
CanComplete→phase_in at_publish = refl
CanComplete→phase_in at_planner = refl

module _ (m : RunMachineState) (e : RunEvent) (n : RunMachineState) (clean : IsClean e.reason) where
  wait_sound : e.kind ≡ wait_kind → transition m e ≡ ok n → Step m e n
  unfolding transition make_state
  wait_sound k h = ground (arith, is_spec_decision-eq e.reason)

  advance_sound :
      (from to : Option RunPhase)
      → m.phase ≡ from
      → e.target ≡ to
      → e.kind ≡ advance_kind
      → transition m e ≡ ok n
      → Step m e n
  unfolding transition make_state run_reason
  advance_sound none none f t k h = ground arith
  advance_sound (some p) none f t k h = ground arith
  advance_sound none (some q) f t k h = ground arith
  advance_sound (some p) (some q) f t k h = elim (Bool-cases (phase_in q (phase_successors p))) [
    | inl b ↦ advances k (ground arith) f t (phase_in→⟶ p q b) (ground arith)
    | inr b ↦ ground arith
  ]

  fail_sound : e.kind ≡ fail_kind → transition m e ≡ ok n → Step m e n
  unfolding transition make_state
  fail_sound k h = ground arith

  complete_sound :
      (at : Option RunPhase)
      → m.phase ≡ at
      → e.kind ≡ complete_kind
      → transition m e ≡ ok n
      → Step m e n
  unfolding transition make_state run_reason
  complete_sound none f k h = ground arith
  complete_sound (some p) f k h = elim (Bool-cases (phase_in p completable_phases)) [
    | inl b ↦ completes k (ground arith) f (phase_in→CanComplete p b) (ground arith)
    | inr b ↦ ground arith
  ]

  resume_sound : e.kind ≡ resume_kind → transition m e ≡ ok n → Step m e n
  unfolding transition make_state run_reason
  resume_sound k h = ground arith

  sound : (k : RunEventKind) → e.kind ≡ k → transition m e ≡ ok n → Step m e n
  sound advance_kind k h = advance_sound m.phase e.target refl refl k h
  sound wait_kind k h = wait_sound k h
  sound fail_kind k h = fail_sound k h
  sound complete_kind k h = complete_sound m.phase refl k h
  sound resume_kind k h = resume_sound k h

  complete : Step m e n → transition m e ≡ ok n
  unfolding transition make_state run_reason
  complete (advances k d f t edge r) = ground (arith, ⟶→phase_in edge)
  complete (waits_external k d p r) = ground arith
  complete (waits_human k d p c r) = ground (arith, is_spec_decision_self)
  complete (fails k d r) = ground arith
  complete (completes k d f c r) = ground (arith, CanComplete→phase_in c)
  complete (resumes k (external d) r) = ground arith
  complete (resumes k (human d) r) = ground arith
  complete (resumes k (retry d) r) = ground arith
  complete (resumes k (approval d p) r) = ground arith

-- For an event whose reason is already normalised, as every constructed event's is, `transition`
-- returns a state exactly when the relation `Step` leads to that state.
pub transition_iff :
    (m : RunMachineState) (e : RunEvent) (n : RunMachineState)
    → IsClean e.reason
    → (transition m e ≡ ok n) ↔ Step m e n
transition_iff m e n clean = (sound m e n clean e.kind refl, complete m e n clean)
