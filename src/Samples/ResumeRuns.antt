-- ===== src/Samples/ResumeRuns.antt =====
-- Checkpoints that are written, moved and read, and runs that may resume or not.
use meta_harness.Common.{ℕ, String, ◌≡◌, ◌≢◌, refl, Bool, true, false, Option, none, some}
use meta_harness.Common.Outcome.{ok}
use meta_harness.Json.{str, int, pos, obj, Fields, end, field}
use meta_harness.Machine.Phase.{implement_step, candidate_push, plan_approval, audit}
use meta_harness.Machine.State.{
  running, wait_external, RunMachineState, RunEvent, resume_kind, resume,
}
use meta_harness.Machine.Transition.{transition}
use meta_harness.Checkpoint.{File, bytes, missing}
use meta_harness.Store.Disk.{Disk}
use meta_harness.Approval.Identity.{RunFiles}
use meta_harness.Resume.Checkpoint.{
  ResumeCheckpoint, make_checkpoint, checkpoint_payload, parse_checkpoint, read_checkpoint_record,
  rephase_checkpoint,
}
use meta_harness.Resume.RoundTrip.{parse-make_checkpoint, rephase_checkpoint-moves}
use meta_harness.Resume.Gate.{ResumePoint, machine_state_for_run, resume_info}
use meta_harness.Resume.Posture.{agrees}
use meta_harness.Resume.Accepted.{resume_info-transition, resume_info-fatal}
use meta_harness.Samples.ApprovalRuns.{whole_approval}
use meta_harness.Samples.CoordinatorRuns.{whole_coordinator}

abbrev commit : String
commit = "0123456789abcdef0123456789abcdef01234567"

abbrev plan : String
plan = "0123456789abcdef0123456789abcdef0123456789abcdef0123456789abcdef"

abbrev at_step : ResumeCheckpoint
at_step = record {
  phase = implement_step;
  iteration = 2;
  step_index = some 3;
  last_green_commit = some commit;
  plan_sha256 = some plan;
}

abbrev file : File
file = bytes (some (obj (checkpoint_payload at_step))) "d0"

-- Opens the checkpoints and the gate.
whole_gate : Unit {0}
unfolding whole_approval whole_coordinator make_checkpoint
    meta_harness.Resume.Checkpoint.iteration_field meta_harness.Resume.Checkpoint.step_field
    meta_harness.Resume.Checkpoint.digest_field meta_harness.Machine.Phase.phase_in
    meta_harness.Common.Text.Hex.is_object_id checkpoint_payload parse_checkpoint
    read_checkpoint_record meta_harness.Resume.Checkpoint.parse_file
    meta_harness.Resume.Checkpoint.exact_fields meta_harness.Resume.Checkpoint.only_fields
    meta_harness.Resume.Checkpoint.is_field meta_harness.Resume.Checkpoint.other_version
    meta_harness.Resume.Checkpoint.write_checkpoint meta_harness.Resume.Checkpoint.moved
    meta_harness.Resume.Checkpoint.rephase rephase_checkpoint resume_info machine_state_for_run
    meta_harness.Resume.Gate.phase_for_run meta_harness.Resume.Gate.is_text
    meta_harness.Resume.Gate.stopped_fatally meta_harness.Resume.Gate.is_false
    meta_harness.Resume.Gate.resume_point meta_harness.Resume.Gate.resume_label
    meta_harness.Resume.Gate.approved_plan_waiting meta_harness.Resume.Gate.plan_approved
    meta_harness.Machine.State.make_event
whole_gate = tt

parse-make_checkpoint_example :
    parse_checkpoint (obj (checkpoint_payload at_step)) "d0" ≡ ok at_step
unfolding whole_gate
parse-make_checkpoint_example =
    parse-make_checkpoint implement_step (int (pos 2)) (int (pos 3)) (str commit) (str plan) "d0"
      refl

abbrev disk : Disk
disk = record { state_file = missing; checkpoint = file }

abbrev digest : Fields → String
digest payload = "d1"

abbrev waiting_state : String → Fields
waiting_state reason = field "status" (str "waiting_external") (
    field "disposition" (str "WAIT_EXTERNAL") (
      field "planning_protocol" (str "v2")
        (field "failure" (obj (field "reason" (str reason) end)) end)))

abbrev no_files : RunFiles
no_files = record {
  approval = missing;
  authority = missing;
  execution = missing;
  bundle = missing;
  raw_plan = missing;
  contract = missing;
  state_file = missing;
}

abbrev point : ResumePoint
point = record {
  phase = implement_step;
  label = "Retry step 3";
  iteration = 2;
  step_index = some 3;
  last_green_commit = some commit;
  disposition = wait_external;
}

abbrev resumed : RunEvent
resumed = record { kind = resume_kind; target = none; posture = none; reason = none }

resume_info-transition_example :
    (c : ResumeCheckpoint) × (m : RunMachineState) × (read_checkpoint_record file ≡ ok (some c))
    × (machine_state_for_run (waiting_state "AGENT_TIMEOUT") (some c) ≡ ok m)
    × (m.phase ≡ some implement_step)
    × (transition m resumed ≡ ok (record m { disposition = running; reason = none }))
unfolding whole_gate agrees resume
resume_info-transition_example =
    resume_info-transition file (λ n. no_files) (waiting_state "AGENT_TIMEOUT") point resumed refl
      refl refl

resume_info-fatal_example :
    resume_info file (λ n. no_files) (waiting_state "SECRET_LEAK") ≢ ok point
unfolding whole_gate
resume_info-fatal_example =
    resume_info-fatal file (λ n. no_files) (waiting_state "SECRET_LEAK") "SECRET_LEAK" "SECRET_LEAK"
      point refl refl refl refl

rephase_checkpoint-moves_example :
    (d : ResumeCheckpoint) × (read_checkpoint_record
        (rephase_checkpoint digest audit disk).1.checkpoint
      ≡ ok (some d))
    × (d.phase ≡ audit)
    × (d.iteration ≡ 2)
    × (d.last_green_commit ≡ some commit)
    × (d.plan_sha256 ≡ some plan)
unfolding whole_gate
rephase_checkpoint-moves_example =
    rephase_checkpoint-moves digest audit disk at_step
      {disk' = (rephase_checkpoint digest audit disk).1} refl refl
