-- ===== src/Resume/Accepted.antt =====
-- resume.py: a run that `resume_info` calls resumable is one that the state machine lets resume.
use meta_harness.Common.{
  and-true, ℕ, String, ◌≡◌, ◌≢◌, refl, sym, ap, ◌∙◌, true, false, not, ◌&&◌, ◌||◌, Option, none,
  some, arith, Bool-cases, inl, inr,
}
use meta_harness.Common.Outcome.{
  ok, map_raised, bind-ok, refuse_if-eq-ok, ok-injective, map_raised-eq-ok,
}
use meta_harness.Common.Text.{is_blank}
use meta_harness.Json.{str, Fields, get, get_in}
use meta_harness.Machine.Phase.{plan_approval, phase_eq}
use meta_harness.Machine.Graph.{phase_eq→≡}
use meta_harness.Machine.State.{running, RunMachineState, RunEvent, resume}
use meta_harness.Machine.Transition.{transition}
use meta_harness.Machine.Projection.{RunOutcome, project_run_outcome}
use meta_harness.Machine.Resuming.{resume_eligible-transition}
use meta_harness.Policy.Table.{fatal}
use meta_harness.Policy.Codes.{canonical_failure_code, lookup}
use meta_harness.Policy.Classify.{class_or_fixable}
use meta_harness.Policy.Boundaries.{classify_failure_total}
use meta_harness.Checkpoint.{File}
use meta_harness.Approval.Identity.{RunFiles}
use meta_harness.Resume.Checkpoint.{ResumeCheckpoint, read_checkpoint_record}
use meta_harness.Resume.Gate.{
  machine_state_for_run, is_text, approved_plan_waiting, ResumePoint, stopped_fatally, is_false,
  resume_point, resume_info, checkpoint_refusal, run_unreadable, outcome_unreadable,
}
use meta_harness.Resume.Posture.{
  running_resume, posture_running, machine_state_for_run-checkpoint, agrees,
}

-- Either way to a resume: the run is eligible, or its approved plan is waiting.
module _ (files : ℕ → RunFiles) (state : Fields) (c : ResumeCheckpoint) (m : RunMachineState)
    (e : RunEvent) where
  approved-transition :
      resume ≡ ok e
      → agrees state ≡ true
      → machine_state_for_run state (some c) ≡ ok m
      → approved_plan_waiting files state (some c) ≡ true
      → transition m e ≡ ok (record m { disposition = running; reason = none })
  unfolding approved_plan_waiting agrees
  approved-transition r agree h waits =
      let (at, rest) = and-true (phase_eq c.phase plan_approval) _ waits in
      let (said, rest') =
        and-true
          (is_text (get state "disposition") "RUNNING" || is_text (get state "status") "running") _
          rest in
      let (posture, phase) = machine_state_for_run-checkpoint state c m h in
      running_resume m e r
        (ok-injective
          (sym posture ∙ posture_running (get state "disposition") (get state "status") said agree))
        (phase ∙ ap some (phase_eq→≡ c.phase plan_approval at))

  resumable-transition :
      (o : RunOutcome)
      → resume ≡ ok e
      → agrees state ≡ true
      → machine_state_for_run state (some c) ≡ ok m
      → project_run_outcome m ≡ ok o
      → (not o.resume_eligible && not (approved_plan_waiting files state (some c))) ≡ false
      → transition m e ≡ ok (record m { disposition = running; reason = none })
  resumable-transition o r agree h read waits = elim (Bool-cases o.resume_eligible) [
    | inl eligible ↦ resume_eligible-transition m e o r read eligible
    | inr not_eligible ↦ approved-transition r agree h (ground arith)
  ]

resume_point-checkpoint :
    (c : Option ResumeCheckpoint) (o : RunOutcome) {p : ResumePoint}
    → resume_point c o ≡ ok p
    → (k : ResumeCheckpoint) × (c ≡ some k) × (p.phase ≡ k.phase) × (p.iteration ≡ k.iteration)
unfolding resume_point
resume_point-checkpoint none o h = cc
resume_point-checkpoint (some k) o h = (k, refl, ground arith, ground arith)

-- What a resumable run has passed.
resume_info-inversion :
    (file : File) (files : ℕ → RunFiles) (state : Fields) {p : ResumePoint}
    → resume_info file files state ≡ ok p
    → (k : Option ResumeCheckpoint) × (m : RunMachineState) × (o : RunOutcome)
      × (read_checkpoint_record file ≡ ok k)
      × (machine_state_for_run state k ≡ ok m)
      × (project_run_outcome m ≡ ok o)
      × ((not o.resume_eligible && not (approved_plan_waiting files state k)) ≡ false)
      × (stopped_fatally (get_in (get state "failure") "reason") ≡ ok false)
      × (resume_point k o ≡ ok p)
unfolding resume_info
resume_info-inversion file files state h =
    let (k, p1, k1) = bind-ok (map_raised checkpoint_refusal (read_checkpoint_record file)) _ h in
    let (m, p2, k2) = bind-ok (map_raised run_unreadable (machine_state_for_run state k)) _ k1 in
    let (o, p3, k3) = bind-ok (map_raised outcome_unreadable (project_run_outcome m)) _ k2 in
    let (v2, k4) = refuse_if-eq-ok (not (is_text (get state "planning_protocol") "v2")) _ _ k3 in
    let (waits, k5) =
      refuse_if-eq-ok (not o.resume_eligible && not (approved_plan_waiting files state k)) _ _ k4 in
    let (stopped, p6, k6) =
      bind-ok (stopped_fatally (get_in (get state "failure") "reason")) _ k5 in
    let (lives, k7) = refuse_if-eq-ok stopped _ _ k6 in
    let (kept, k8) = refuse_if-eq-ok (is_false (get state "recovery_resumable")) _ _ k7 in
    (
      k,
      m,
      o,
      map_raised-eq-ok checkpoint_refusal (read_checkpoint_record file) p1,
      map_raised-eq-ok run_unreadable (machine_state_for_run state k) p2,
      map_raised-eq-ok outcome_unreadable (project_run_outcome m) p3,
      waits,
      p6 ∙ ap ok lives,
      k8,
    )

-- A run that `resume_info` calls resumable, in a state whose status and posture agree: it has a
-- checkpoint, its machine state is at the phase of that checkpoint, which is the one that is shown, and
-- the machine accepts the event `RESUME` in it.
pub resume_info-transition :
    (file : File) (files : ℕ → RunFiles) (state : Fields) (p : ResumePoint) (e : RunEvent)
    → resume ≡ ok e
    → agrees state ≡ true
    → resume_info file files state ≡ ok p
    → (c : ResumeCheckpoint) × (m : RunMachineState) × (read_checkpoint_record file ≡ ok (some c))
      × (machine_state_for_run state (some c) ≡ ok m)
      × (m.phase ≡ some p.phase)
      × (transition m e ≡ ok (record m { disposition = running; reason = none }))
resume_info-transition file files state p e r agree h =
    let (k, m, o, read, machine, outcome, waits, lives, point) =
      resume_info-inversion file files state h in
    let (c, there, phase, n) = resume_point-checkpoint k o point in
    let at_checkpoint : machine_state_for_run state (some c) ≡ ok m = rw there at machine in
    let (posture, at) = machine_state_for_run-checkpoint state c m at_checkpoint in
    (
      c,
      m,
      read ∙ ap ok there,
      at_checkpoint,
      at ∙ ap some (sym phase),
      resumable-transition files state c m e o r agree at_checkpoint outcome (rw there at waits),
    )

stopped_fatally-fatal :
    (s code : String)
    → is_blank s ≡ false
    → canonical_failure_code s ≡ ok code
    → class_or_fixable (lookup code) ≡ fatal
    → stopped_fatally (str s) ≡ ok true
unfolding stopped_fatally
stopped_fatally-fatal s code filled named class =
    let (c, p, q) = classify_failure_total s false filled in
    let same : c ≡ code = ok-injective (sym p ∙ named) in rw (filled, q, same, class) refl

-- A run whose recorded failure is one of the class FATAL is never resumable, whatever its checkpoint,
-- its approval and the rest of its state are.
pub resume_info-fatal :
    (file : File) (files : ℕ → RunFiles) (state : Fields) (s code : String) (p : ResumePoint)
    → get_in (get state "failure") "reason" ≡ str s
    → is_blank s ≡ false
    → canonical_failure_code s ≡ ok code
    → class_or_fixable (lookup code) ≡ fatal
    → resume_info file files state ≢ ok p
resume_info-fatal file files state s code p recorded filled named class h =
    let (k, m, o, read, machine, outcome, waits, lives, point) =
      resume_info-inversion file files state h in
    cc (
      ok-injective (
        sym lives
        ∙ (ap stopped_fatally recorded ∙ stopped_fatally-fatal s code filled named class)))
