-- ===== src/Resume/Gate.antt =====
-- resume.py: the machine state of a recorded run, its identity, and `resume_info`.
use Prim.Native.String.{◌++◌}
use meta_harness.Common.{
  ℕ, String, Bool, true, false, not, ◌&&◌, ◌||◌, Option, none, some, ◌==◌, if◌then◌else◌,
}
use meta_harness.Common.Outcome.{Outcome, ok, raised, ◌>>=◌, ◌>>◌, refuse_if, map_raised}
use meta_harness.Common.Text.{is_blank}
use meta_harness.Common.Text.Decimal.{decimal}
use meta_harness.Json.{Value, str, bool, Fields, get, get_in, as_str}
use meta_harness.Machine.Phase.{
  RunPhase, context, planner, plan_approval, worktree_setup, implement_step, deterministic_gate,
  audit, candidate_ready, candidate_push, publish, phase_value, phase_eq,
}
use meta_harness.Machine.State.{
  RunDisposition, MachineError, RunMachineState, coerce_phase, RunIdentity, identity_of,
}
use meta_harness.Machine.Projection.{RunOutcome, project_run_outcome, assemble_run_state}
use meta_harness.Policy.Table.{FailureClass, fatal}
use meta_harness.Policy.Codes.{PolicyError}
use meta_harness.Policy.Classify.{classify_failure}
use meta_harness.Checkpoint.{File, checkpoint_sha256}
use meta_harness.Approval.Identity.{
  ApprovalError, ApprovalDecision, approve, PlanApproval, RunFiles, plan_identity_from_mapping,
}
use meta_harness.Approval.Artifact.{read_plan_approval}
use meta_harness.Resume.Checkpoint.{
  CheckpointError, schema_unsupported, ResumeCheckpoint, read_checkpoint_record,
}

-- What `machine_state_for_run` raises: the recorded phase is unknown, or the state is unreadable.
pub data StateError : Type 0 where
  phase_unknown state_unreadable : MachineError → StateError

-- The phase of the checkpoint, or else the recorded one.
unfoldable pub phase_for_run : Fields → Option ResumeCheckpoint → Outcome StateError Value
phase_for_run state (some c) = ok (str (phase_value c.phase))
phase_for_run state none = do
  p ← map_raised phase_unknown (coerce_phase (get state "phase"))
  ok (get state "phase")

-- `machine_state_for_run`
unfoldable pub machine_state_for_run :
    Fields → Option ResumeCheckpoint → Outcome StateError RunMachineState
unfolding phase_for_run
machine_state_for_run state c = do
  phase ← phase_for_run state c
  map_raised state_unreadable (
      assemble_run_state phase (get state "disposition") (get state "status") (get state "reason")
        (get_in (get state "failure") "reason"))

-- `run_identity`; the checkpoint file is read again for its digest.
unfoldable pub run_identity :
    Fields → File → Option ResumeCheckpoint → Outcome StateError RunIdentity
unfolding machine_state_for_run
run_identity state file c = do
  machine ← machine_state_for_run state c
  map_raised state_unreadable
      (identity_of machine (as_str (get state "updated_at")) (checkpoint_sha256 file))

-- `value == text`, of any value
unfoldable pub is_text : Value → String → Bool
is_text (str s) t = s == t
is_text v t = false

abbrev is_approve : ApprovalDecision → Bool
is_approve approve = true
is_approve _ = false

-- `approval is not None and approval.decision is APPROVE`, and `False` for every error
unfoldable pub approves : Outcome ApprovalError (Option PlanApproval) → Bool
approves (ok (some a)) = is_approve a.decision
approves o = false

-- The part of `_approved_plan_waiting` behind its first guard.
unfoldable pub plan_approved : Value → RunFiles → Bool
unfolding approves
plan_approved identity files =
    approves (do expected ← plan_identity_from_mapping identity; read_plan_approval expected files)

-- `_approved_plan_waiting`; the artifacts are those of the checkpoint's iteration.
unfoldable pub approved_plan_waiting : (ℕ → RunFiles) → Fields → Option ResumeCheckpoint → Bool
unfolding is_text plan_approved
approved_plan_waiting files state none = false
approved_plan_waiting files state (some c) =
    phase_eq c.phase plan_approval
    && ((is_text (get state "disposition") "RUNNING" || is_text (get state "status") "running")
        && (is_text (get state "planning_protocol") "v2"
            && plan_approved (get state "plan_identity") (files c.iteration)))

-- `resume_label`
unfoldable pub resume_label : ResumeCheckpoint → String
resume_label c = elim c.phase [
  | context ↦ "Retry context"
  | planner ↦ "Retry planner"
  | plan_approval ↦ "Resume plan approval"
  | worktree_setup ↦ "Retry workspace setup"
  | implement_step ↦ "Retry step " ++ (elim c.step_index [ some n ↦ decimal n | none ↦ "None" ])
  | deterministic_gate ↦ "Retry deterministic gate"
  | audit ↦ "Retry audit"
  | candidate_ready ↦ "Prepare candidate"
  | candidate_push ↦ "Push candidate"
  | publish ↦ "Retry publish"
]

-- A `ResumeInfo` whose `resumable` is false, a constructor for each place that returns one; the last
-- one stands for an exception of `classify_failure`.
pub data ResumeRefusal : Type 0 where
  checkpoint_schema_unsupported : ResumeRefusal
  checkpoint_inconsistent : CheckpointError → ResumeRefusal
  run_unreadable : StateError → ResumeRefusal
  outcome_unreadable : MachineError → ResumeRefusal
  not_pipeline_v2 no_waiting_state fatal_boundary not_resumable_failure no_checkpoint :
      ResumeRefusal
  unclassified : PolicyError → ResumeRefusal

-- A `ResumeInfo` whose `resumable` is true.
pub record ResumePoint : Type 0 where
  pub phase : RunPhase
  pub label : String
  pub iteration : ℕ
  pub step_index : Option ℕ
  pub last_green_commit : Option String
  pub disposition : RunDisposition

unfoldable pub checkpoint_refusal : CheckpointError → ResumeRefusal
checkpoint_refusal schema_unsupported = checkpoint_schema_unsupported
checkpoint_refusal e = checkpoint_inconsistent e

abbrev is_fatal : FailureClass → Bool
is_fatal fatal = true
is_fatal _ = false

-- `isinstance(reason, str) and reason.strip() and classify_failure(reason)... is FATAL`
unfoldable pub stopped_fatally : Value → Outcome ResumeRefusal Bool
stopped_fatally (str s) = if is_blank s then ok false else do
  decision ← map_raised unclassified (classify_failure s false)
  ok (is_fatal decision.failure_class)
stopped_fatally v = ok false

-- `state.get("recovery_resumable") is False`
unfoldable pub is_false : Value → Bool
is_false (bool false) = true
is_false v = false

-- The last part of `resume_info`.
unfoldable pub resume_point :
    Option ResumeCheckpoint → RunOutcome → Outcome ResumeRefusal ResumePoint
unfolding resume_label
resume_point none outcome = raised no_checkpoint
resume_point (some c) outcome = ok (record {
  phase = c.phase;
  label = resume_label c;
  iteration = c.iteration;
  step_index = c.step_index;
  last_green_commit = c.last_green_commit;
  disposition = outcome.disposition;
})

-- `resume_info`
unfoldable pub resume_info : File → (ℕ → RunFiles) → Fields → Outcome ResumeRefusal ResumePoint
unfolding checkpoint_refusal machine_state_for_run approved_plan_waiting stopped_fatally is_false
    resume_point is_text
resume_info file files state = do
  checkpoint ← map_raised checkpoint_refusal (read_checkpoint_record file)
  machine ← map_raised run_unreadable (machine_state_for_run state checkpoint)
  outcome ← map_raised outcome_unreadable (project_run_outcome machine)
  refuse_if (not (is_text (get state "planning_protocol") "v2")) not_pipeline_v2
  refuse_if (not outcome.resume_eligible && not (approved_plan_waiting files state checkpoint))
      no_waiting_state
  stopped ← stopped_fatally (get_in (get state "failure") "reason")
  refuse_if stopped fatal_boundary
  refuse_if (is_false (get state "recovery_resumable")) not_resumable_failure
  resume_point checkpoint outcome
