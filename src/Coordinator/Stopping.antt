-- ===== src/Coordinator/Stopping.antt =====
-- Where the events of the terminal postures lead, and what their projection reports.

use meta_harness.Common.{String, ◌≡◌, refl, ◌∙◌, Bool, true, false, none, some, arith}
use meta_harness.Common.Outcome.{ok, map_raised, bind-ok, ok-injective, map_raised-eq-ok}
use meta_harness.Machine.Phase.{RunPhase}
use meta_harness.Machine.State.{
  RunDisposition, running, wait_external as to_wait_external, wait_human as to_wait_human, failed,
  make_state, make_event, run_reason, fail, wait, RunEvent, RunMachineState, completed, wait_kind,
  fail_kind,
}
use meta_harness.Machine.Projection.{
  RunStatus, RunOutcome, project_run_outcome, status_failed, status_running, status_committed,
  status_waiting_external, status_waiting_human,
}
use meta_harness.Machine.Transition.{transition}
use meta_harness.Machine.Legal.{
  Step, advances, fails, waits_external as leg_external, waits_human as leg_human, completes,
  resumes, transition_iff,
}
use meta_harness.Machine.Clean.{make_event-IsClean, make_state-fields}
use meta_harness.Coordinator.Exit.{machine_error, RecoveryTerminalState, terminal_event, projected}

abbrev pub is_external : RunDisposition → Bool
is_external to_wait_external = true
is_external _ = false

abbrev pub status_of : RunDisposition → RunStatus
status_of failed = status_failed
status_of to_wait_external = status_waiting_external
status_of to_wait_human = status_waiting_human
status_of running = status_running
status_of completed = status_committed

-- The status of a terminal posture, and whether a run in it is resumable.
Ends : RunDisposition → RunMachineState → RunOutcome → Type 0
Ends d m o =
    (o.disposition ≡ d)
    × (o.phase ≡ m.phase)
    × (o.resumable ≡ is_external d)
    × (o.status ≡ status_of d)

-- Where an event of a terminal posture leads.
Stops : RunDisposition → RunMachineState → RunMachineState → Type 0
Stops d m n = (n.disposition ≡ d) × (n.phase ≡ m.phase)

module _ (m n : RunMachineState) (e : RunEvent) where
  Step-failed : e.kind ≡ fail_kind → Step m e n → Stops failed m n
  unfolding Stops
  Step-failed k (fails k' d r) = ground arith
  Step-failed k (advances k' d p t edge r) = cc
  Step-failed k (leg_external k' d p r) = cc
  Step-failed k (leg_human k' d p c r) = cc
  Step-failed k (completes k' d p c r) = cc
  Step-failed k (resumes k' c r) = cc

  Step-waits :
      (d : RunDisposition) → e.kind ≡ wait_kind → e.posture ≡ some d → Step m e n → Stops d m n
  unfolding Stops
  Step-waits d k p (leg_external k' d' p' r) = ground arith
  Step-waits d k p (leg_human k' d' p' c r) = ground arith
  Step-waits d k p (advances k' d' p' t edge r) = cc
  Step-waits d k p (fails k' d' r) = cc
  Step-waits d k p (completes k' d' p' c r) = cc
  Step-waits d k p (resumes k' c r) = cc

-- The postures that a ladder ends in.
abbrev pub is_end : RunDisposition → Bool
is_end failed = true
is_end to_wait_external = true
is_end to_wait_human = true
is_end _ = false

module _ (code : String) (m n : RunMachineState) (e : RunEvent) where
  event-Stops :
      (d : RunDisposition)
      → is_end d ≡ true
      → terminal_event d code ≡ ok e
      → transition m e ≡ ok n
      → Stops d m n
  unfolding terminal_event fail wait
  event-Stops failed ends made step =
      Step-failed m n e (unfold make_event run_reason in ground arith)
        ((transition_iff m e n (make_event-IsClean fail_kind none none (some code) made)).0 step)
  event-Stops to_wait_external ends made step =
      Step-waits m n e to_wait_external (unfold make_event run_reason in ground arith)
        (unfold make_event run_reason in ground arith)
        ((transition_iff m e n
            (make_event-IsClean wait_kind none (some to_wait_external) (some code) made)).0
          step)
  event-Stops to_wait_human ends made step =
      Step-waits m n e to_wait_human (unfold make_event run_reason in ground arith)
        (unfold make_event run_reason in ground arith)
        ((transition_iff m e n
            (make_event-IsClean wait_kind none (some to_wait_human) (some code) made)).0
          step)
  event-Stops running ends made step = cc
  event-Stops completed ends made step = cc

outcome-Stops :
    (d : RunDisposition) (m n : RunMachineState) (o : RunOutcome)
    → is_end d ≡ true
    → Stops d m n
    → project_run_outcome n ≡ ok o
    → Ends d m o
unfolding project_run_outcome Stops Ends
outcome-Stops failed m n o ends s read = ground arith
outcome-Stops to_wait_external m n o ends s read = ground arith
outcome-Stops to_wait_human m n o ends s read = ground arith
outcome-Stops running m n o ends s read = cc
outcome-Stops completed m n o ends s read = cc

abbrev pub IsProjected : RunDisposition → String → RunPhase → RecoveryTerminalState → Type 0
IsProjected d reason phase t =
    (t.disposition ≡ d)
    × (t.phase ≡ some phase)
    × (t.resumable ≡ is_external d)
    × (t.status ≡ status_of d)
    × (t.reason ≡ reason)

pub projected-IsProjected :
    (d : RunDisposition) (code reason : String) (phase : RunPhase) {t : RecoveryTerminalState}
    → is_end d ≡ true
    → projected d code reason phase ≡ ok t
    → IsProjected d reason phase t
unfolding projected Ends
projected-IsProjected d code reason phase {t} ends h =
    let (e, p1, k1) = bind-ok (map_raised machine_error (terminal_event d code)) _ h in
    let (m, p2, k2) =
      bind-ok (map_raised machine_error (make_state (some phase) running none)) _ k1 in
    let (n, p3, k3) = bind-ok (map_raised machine_error (transition m e)) _ k2 in
    let (o, p4, k4) = bind-ok (map_raised machine_error (project_run_outcome n)) _ k3 in
    let at =
      make_state-fields (some phase) running none
        (map_raised-eq-ok machine_error (make_state (some phase) running none) p2) in
    let made = map_raised-eq-ok machine_error (terminal_event d code) p1 in
    let stops =
      event-Stops code m n e d ends made (map_raised-eq-ok machine_error (transition m e) p3) in
    let (a, b, c, f) =
      outcome-Stops d m n o ends stops
        (map_raised-eq-ok machine_error (project_run_outcome n) p4) in
    rw (← ok-injective k4) (a, b ∙ at.0, c, f, refl)
