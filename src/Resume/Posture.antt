-- ===== src/Resume/Posture.antt =====
-- resume.py: the machine state that a recorded run is assembled to.
use meta_harness.Common.{
  String, ◌≡◌, refl, sym, ap, ◌∙◌, Bool, true, not, ◌||◌, none, some, arith, eq_iff, Bool-cases,
  inl, inr,
}
use meta_harness.Common.Outcome.{ok, bind-ok, ok-injective, map_raised-eq-ok}
use meta_harness.Common.Text.{casefold}
use meta_harness.Json.{Value, null, str, bool, int, float, obj, arr, Fields, is_null, get, get_in}
use meta_harness.Machine.Phase.{RunPhase, plan_approval, phase_value}
use meta_harness.Machine.State.{
  running, RunMachineState, RunEvent, make_state, run_reason, resume, coerce_phase,
  coerce_disposition, disposition_of_text, disposition_value,
}
use meta_harness.Machine.Clean.{make_state-fields}
use meta_harness.Machine.Transition.{transition}
use meta_harness.Machine.Projection.{
  assemble_run_state, recorded_posture, disposition_for_status, status_dispositions,
}
use meta_harness.Resume.Checkpoint.{ResumeCheckpoint}
use meta_harness.Store.ReadBack.{phase_of_text-phase_value}
use meta_harness.Resume.Gate.{phase_for_run, machine_state_for_run, is_text, state_unreadable}

-- A state whose status is running is recorded with no other posture.
unfoldable pub agrees : Fields → Bool
agrees state =
    not (is_text (get state "status") "running")
    || (is_null (get state "disposition") || is_text (get state "disposition") "RUNNING")

-- A running run that waits for the approval of its plan may resume.
pub running_resume :
    (m : RunMachineState) (e : RunEvent)
    → resume ≡ ok e
    → m.disposition ≡ running
    → m.phase ≡ some plan_approval
    → transition m e ≡ ok (record m { disposition = running; reason = none })
unfolding transition make_state run_reason resume
running_resume m e r d p = ground arith

is_text-eq : (v : Value) (t : String) → is_text v t ≡ true → v ≡ str t
unfolding is_text
is_text-eq (str s) t h = ap str ((eq_iff s t).0 h)
is_text-eq null t h = cc
is_text-eq (bool b) t h = cc
is_text-eq (int n) t h = cc
is_text-eq (float b s) t h = cc
is_text-eq (obj d) t h = cc
is_text-eq (arr d) t h = cc

is_null-eq : (v : Value) → is_null v ≡ true → v ≡ null
is_null-eq null h = refl
is_null-eq v h = cc

coerce_running : coerce_disposition (str "RUNNING") ≡ ok running
unfolding coerce_disposition disposition_of_text disposition_value
coerce_running = refl

running_status : disposition_for_status (str "running") ≡ ok running
unfolding disposition_for_status status_dispositions casefold
running_status = refl

coerce-phase_value : (p : RunPhase) → coerce_phase (str (phase_value p)) ≡ ok (some p)
unfolding coerce_phase
coerce-phase_value p = rw (phase_of_text-phase_value p, coerce_phase) refl

-- The posture of a state that is recorded as running.
pub posture_running :
    (d s : Value)
    → (is_text d "RUNNING" || is_text s "running") ≡ true
    → (not (is_text s "running") || (is_null d || is_text d "RUNNING")) ≡ true
    → recorded_posture d s ≡ ok running
unfolding recorded_posture
posture_running d s said agree = elim (Bool-cases (is_text d "RUNNING")) [
  | inl e ↦ rw (is_text-eq d "RUNNING" e) coerce_running
  | inr e ↦
      let status : is_text s "running" ≡ true = rw e at said in
      let nothing : is_null d ≡ true = ground arith in
      rw (is_null-eq d nothing, is_text-eq s "running" status) running_status
]

module _ (state : Fields) (c : ResumeCheckpoint) (m : RunMachineState) where
  -- The assembled state is at the phase of the checkpoint, in the recorded posture.
  pub machine_state_for_run-checkpoint :
      machine_state_for_run state (some c) ≡ ok m
      → (recorded_posture (get state "disposition") (get state "status") ≡ ok m.disposition)
        × (m.phase ≡ some c.phase)
  unfolding machine_state_for_run phase_for_run assemble_run_state
  machine_state_for_run-checkpoint h =
      let made =
        map_raised-eq-ok state_unreadable
          (assemble_run_state (str (phase_value c.phase)) (get state "disposition")
            (get state "status") (get state "reason") (get_in (get state "failure") "reason"))
          h in
      let (posture, p, k) =
        bind-ok (recorded_posture (get state "disposition") (get state "status")) _ made in
      let (phase, q, k') = bind-ok (coerce_phase (str (phase_value c.phase))) _ k in
      let (a, b, r) = make_state-fields phase posture _ k' in
      (p ∙ ap ok (sym b), a ∙ ok-injective (sym q ∙ coerce-phase_value c.phase))
