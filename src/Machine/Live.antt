-- ===== src/Machine/Live.antt =====
-- models.py: the ways of the machine to the published candidate.

use meta_harness.Common.{◌≡◌, ◌≢◌, refl, ap, ◌∙◌, Option, none, some, List, [], ◌∷◌, ◌++◌, String}
use meta_harness.Common.Outcome.{ok}
use meta_harness.Machine.Phase.{
  RunPhase, context, planner, plan_approval, worktree_setup, implement_step, deterministic_gate,
  audit, candidate_ready, candidate_push, publish, phase_in, phase_successors, completable_phases,
}
use meta_harness.Machine.State.{
  RunDisposition, running, wait_external, wait_human, completed, failed, RunMachineState, RunEvent,
  advance_kind, complete_kind, resume_kind, make_state, run_reason,
}
use meta_harness.Machine.Transition.{transition}
use meta_harness.Machine.Legal.{state}
use meta_harness.Machine.Runs.{drive}

abbrev event_to : RunPhase → RunEvent
event_to t = record { kind = advance_kind; target = some t; posture = none; reason = none }

abbrev finished : RunEvent
finished = record { kind = complete_kind; target = none; posture = none; reason = none }

abbrev resumption : RunEvent
resumption = record { kind = resume_kind; target = none; posture = none; reason = none }

-- The way to the end of a published run, from each phase on it.
abbrev from_push : List RunEvent
from_push = event_to publish ∷ finished ∷ []

abbrev from_ready : List RunEvent
from_ready = event_to candidate_push ∷ from_push

abbrev from_gate : List RunEvent
from_gate = event_to candidate_ready ∷ from_ready

abbrev from_step : List RunEvent
from_step = event_to deterministic_gate ∷ from_gate

abbrev from_setup : List RunEvent
from_setup = event_to implement_step ∷ from_step

abbrev route : RunPhase → List RunEvent
route publish = finished ∷ []
route candidate_push = from_push
route candidate_ready = from_ready
route deterministic_gate = from_gate
route audit = from_step
route implement_step = from_step
route worktree_setup = from_setup
route plan_approval = event_to worktree_setup ∷ from_setup
route planner = from_gate
route context = event_to planner ∷ from_gate

drive-route :
    (p : RunPhase) (r : Option String)
    → drive (state (some p) running r) (route p) ≡ ok (state (some publish) completed none)
unfolding drive transition make_state run_reason phase_in phase_successors completable_phases
drive-route context r = refl
drive-route planner r = refl
drive-route plan_approval r = refl
drive-route worktree_setup r = refl
drive-route implement_step r = refl
drive-route deterministic_gate r = refl
drive-route audit r = refl
drive-route candidate_ready r = refl
drive-route candidate_push r = refl
drive-route publish r = refl

-- What restarts a run: nothing, if it runs.
abbrev pub wake : RunDisposition → List RunEvent
wake running = []
wake _ = resumption ∷ []

-- No event of the list is a resumption.
abbrev pub NoResume : List RunEvent → Type 0
NoResume [] = Unit
NoResume (e ∷ es) = (e.kind ≢ resume_kind) × NoResume es

route-NoResume : (p : RunPhase) → NoResume (route p)
route-NoResume publish = (λ h. cc, tt)
route-NoResume candidate_push = (λ h. cc, (λ h. cc, tt))
route-NoResume candidate_ready = (λ h. cc, (λ h. cc, (λ h. cc, tt)))
route-NoResume deterministic_gate = (λ h. cc, (λ h. cc, (λ h. cc, (λ h. cc, tt))))
route-NoResume audit = (λ h. cc, (λ h. cc, (λ h. cc, (λ h. cc, (λ h. cc, tt)))))
route-NoResume implement_step = (λ h. cc, (λ h. cc, (λ h. cc, (λ h. cc, (λ h. cc, tt)))))
route-NoResume worktree_setup = (λ h. cc, (λ h. cc, (λ h. cc, (λ h. cc, (λ h. cc, (λ h. cc, tt))))))
route-NoResume plan_approval =
    (λ h. cc, (λ h. cc, (λ h. cc, (λ h. cc, (λ h. cc, (λ h. cc, (λ h. cc, tt)))))))
route-NoResume planner = (λ h. cc, (λ h. cc, (λ h. cc, (λ h. cc, tt))))
route-NoResume context = (λ h. cc, (λ h. cc, (λ h. cc, (λ h. cc, (λ h. cc, tt)))))

from_posture :
    (p : RunPhase) (d : RunDisposition) (r : Option String)
    → d ≢ completed
    → drive (state (some p) d r) (wake d ++ route p) ≡ ok (state (some publish) completed none)
unfolding drive transition make_state run_reason
from_posture p running r open_run = drive-route p r
from_posture p wait_external r open_run = drive-route p none
from_posture p wait_human r open_run = drive-route p none
from_posture p failed r open_run = drive-route p none
from_posture p completed r open_run = absurd (open_run refl)

-- From every machine state that has a phase and is not completed, `transition` accepts a sequence of events
-- one after the other that ends in the completed run at publication: without a resumption if the run
-- is running, and with a single one, at the start, if it waits or has failed. Whether such a run is resumed
-- is for the caller to decide; `resume_info` refuses some.
pub drive-completed :
    (m : RunMachineState) (p : RunPhase)
    → m.phase ≡ some p
    → m.disposition ≢ completed
    → (es : List RunEvent) × NoResume es
      × (drive m (wake m.disposition ++ es) ≡ ok (state (some publish) completed none))
drive-completed m p at open_run = (
  route p,
  route-NoResume p,
  ap (λ x. drive (record m { phase = x }) (wake m.disposition ++ route p)) at
      ∙ from_posture p m.disposition m.reason open_run,
)
