-- ===== src/Machine/Runs.antt =====
-- What holds of a run over every list of events that the machine accepts.
use meta_harness.Common.{◌≡◌, refl, inl, inr, Option, none, some, arith, List, [], ◌∷◌, ap}
use mathlib.Core.Path.{subst}
use meta_harness.Common.Outcome.{Outcome, ok, ◌>>=◌, bind-ok, ok-injective, Outcome-cases}
use meta_harness.Machine.Phase.{RunPhase, context, candidate_ready, candidate_push, publish}
use meta_harness.Machine.State.{
  wait_human, MachineError, RunMachineState, RunEventKind, advance_kind, RunEvent,
}
use meta_harness.Machine.Transition.{transition}
use meta_harness.Machine.Projection.{
  RunOutcome, project_run_outcome, completed_status, status_published,
}
use meta_harness.Machine.Clean.{IsClean}
use meta_harness.Machine.Graph.{◌⟶◌, push, release, accept, accept_plan}
use meta_harness.Machine.Legal.{
  Step, advances, waits_external, waits_human, fails, completes, resumes, transition_iff,
  is_spec_decision_self,
}

-- A run is told its events one after the other; the first refusal ends the story.
unfoldable pub drive : RunMachineState → List RunEvent → Outcome MachineError RunMachineState
drive m [] = ok m
drive m (e ∷ es) = do n ← transition m e; drive n es

-- The reasons of the events are normalised, as `RunEvent.__post_init__` leaves them.
abbrev pub AllClean : List RunEvent → Type 0
AllClean [] = Unit
AllClean (e ∷ es) = IsClean e.reason × AllClean es

abbrev pub IsProjectable : RunMachineState → Type 0
IsProjectable m = m.disposition ≡ wait_human → m.reason ≡ some "SPEC_DECISION_REQUIRED"

Step-IsProjectable :
    {m : RunMachineState} {e : RunEvent} {n : RunMachineState} → Step m e n → IsProjectable n
Step-IsProjectable (advances k d f t edge r) = ground arith
Step-IsProjectable (waits_external k d p r) = ground arith
Step-IsProjectable (waits_human k d p c r) = ground arith
Step-IsProjectable (fails k d r) = ground arith
Step-IsProjectable (completes k d f c r) = ground arith
Step-IsProjectable (resumes k c r) = ground arith

drive_invariant :
    (P : RunMachineState → Type 0)
    → ((m : RunMachineState) (e : RunEvent) (n : RunMachineState) → Step m e n → P m → P n)
    → (es : List RunEvent) (m : RunMachineState) {n : RunMachineState} → AllClean es
    → drive m es ≡ ok n
    → P m
    → P n
unfolding drive
drive_invariant P keep [] m c h p = subst P (ok-injective h) p
drive_invariant P keep (e ∷ es) m (c, cs) h p =
    let (n', a, b) = bind-ok (transition m e) _ h in
    drive_invariant P keep es n' cs b (keep m e n' ((transition_iff m e n' c).0 a) p)

project_IsProjectable :
    (m : RunMachineState) → IsProjectable m → (o : RunOutcome) × (project_run_outcome m ≡ ok o)
unfolding project_run_outcome
project_IsProjectable m h = elim (Outcome-cases (project_run_outcome m)) [
  | inl (o, p) ↦ (o, p)
  | inr (x, p) ↦ absurd (ground (arith, is_spec_decision_self))
]

-- Whatever events a run accepts, from a state that is not waiting for a human, its status can be
-- derived: the projection never raises on a state that the machine reached.
pub project-drive :
    (m : RunMachineState) (es : List RunEvent) {n : RunMachineState}
    → IsProjectable m
    → AllClean es
    → drive m es ≡ ok n
    → (o : RunOutcome) × (project_run_outcome n ≡ ok o)
project-drive m es {n} p c h =
    project_IsProjectable n
      (drive_invariant IsProjectable (λ a e b s _. Step-IsProjectable s) es m c h p)

abbrev pub note : RunEventKind → Option RunPhase → List RunPhase → List RunPhase
note advance_kind (some t) seen = t ∷ seen
note _ _ seen = seen

-- The phases that the events hand over to, the latest first, in front of those handed over before.
unfoldable pub handed_over : List RunPhase → List RunEvent → List RunPhase
handed_over seen [] = seen
handed_over seen (e ∷ es) = handed_over (note e.kind e.target seen) es

-- The three operations that end a delivered run come in one order, with nothing in between.
abbrev Ends : RunPhase → List RunPhase → Type 0
Ends candidate_ready seen = (xs : List RunPhase) × (seen ≡ candidate_ready ∷ xs)
Ends candidate_push seen = (xs : List RunPhase) × (seen ≡ candidate_push ∷ candidate_ready ∷ xs)
Ends publish seen = (xs : List RunPhase) × (seen ≡ publish ∷ candidate_push ∷ candidate_ready ∷ xs)
Ends _ seen = Unit

abbrev pub EndsAt : Option RunPhase → List RunPhase → Type 0
EndsAt none seen = Unit
EndsAt (some p) seen = Ends p seen

grow : {p t : RunPhase} (seen : List RunPhase) → p ⟶ t → Ends p seen → Ends t (t ∷ seen)
grow seen push (xs, e) = (xs, ap (λ l. candidate_push ∷ l) e)
grow seen release (xs, e) = (xs, ap (λ l. publish ∷ l) e)
grow seen accept h = (seen, refl)
grow seen accept_plan h = (seen, refl)
grow seen _ h = tt

Step-EndsAt :
    {m : RunMachineState} {e : RunEvent} {n : RunMachineState} (seen : List RunPhase)
    → Step m e n
    → EndsAt m.phase seen
    → EndsAt n.phase (note e.kind e.target seen)
Step-EndsAt seen (advances {p = p} {t = t} k d f g edge r) h =
    rw (r, k, g) (grow seen edge (rw f at h))
Step-EndsAt seen (waits_external k d p r) h = rw (r, k) h
Step-EndsAt seen (waits_human k d p c r) h = rw (r, k) h
Step-EndsAt seen (fails k d r) h = rw (r, k) h
Step-EndsAt seen (completes k d f c r) h = rw (r, k) h
Step-EndsAt seen (resumes k c r) h = rw (r, k) h

drive-EndsAt :
    (es : List RunEvent) (m : RunMachineState) (seen : List RunPhase) {n : RunMachineState}
    → AllClean es
    → drive m es ≡ ok n
    → EndsAt m.phase seen
    → EndsAt n.phase (handed_over seen es)
unfolding drive handed_over
drive-EndsAt [] m seen {n} c h p =
    subst (λ (k : RunMachineState). EndsAt k.phase seen) (ok-injective h) p
drive-EndsAt (e ∷ es) m seen (c, cs) h p =
    let (n', a, b) = bind-ok (transition m e) _ h in
    drive-EndsAt es n' (note e.kind e.target seen) cs b
      (Step-EndsAt seen ((transition_iff m e n' c).0 a) p)

-- A run that starts at CONTEXT and whose derived status is `published` was handed over to
-- CANDIDATE_READY, then to CANDIDATE_PUSH, then to PUBLISH, and to nothing after or in between.
pub published-handed_over :
    (m n : RunMachineState) (es : List RunEvent) (o : RunOutcome)
    → m.phase ≡ some context
    → AllClean es
    → drive m es ≡ ok n
    → project_run_outcome n ≡ ok o
    → o.status ≡ status_published
    → (xs : List RunPhase) × (handed_over [] es ≡ publish ∷ candidate_push ∷ candidate_ready ∷ xs)
unfolding project_run_outcome completed_status
published-handed_over m n es o s c h p q =
    let there : n.phase ≡ some publish = ground arith in
    rw there at (drive-EndsAt es m [] c h (rw s tt))
