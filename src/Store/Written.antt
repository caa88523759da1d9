-- ===== src/Store/Written.antt =====
-- What one write of the store leaves to read.
use mathlib.Core.Path.{subst}
use meta_harness.Common.{String, ◌≡◌, false, arith, if◌then◌else◌, inl, inr}
use meta_harness.Common.Outcome.{ok, Outcome-cases}
use meta_harness.Json.{str, Fields, get, has_key, put, update, opt_str}
use meta_harness.Json.Laws.{get-put, get-update, IsDict}
use meta_harness.Machine.State.{disposition_value, RunMachineState}
use meta_harness.Machine.Projection.{RunOutcome, project_run_outcome, status_value}
use meta_harness.Store.Disk.{names_control}
use meta_harness.Store.Machine.{apply, phase_json, contradicts}

pub record Applied (state : Fields) (m : RunMachineState) (fields : Fields) (now : String)
    (st : Fields) : Type 0 where
  pub outcome : RunOutcome
  pub projected : project_run_outcome m ≡ ok outcome
  pub agrees : contradicts (get fields "failure") m.reason ≡ false
  pub status_read : get st "status" ≡ str (status_value outcome.status)
  pub disposition_read : get st "disposition" ≡ str (disposition_value m.disposition)
  pub phase_read : get st "phase" ≡ phase_json m.phase
  pub reason_read : get st "reason" ≡ opt_str m.reason
  pub updated_read : get st "updated_at" ≡ str now
  pub failure_read :
      get st "failure"
      ≡ (if has_key fields "failure" then get fields "failure" else get state "failure")

abbrev pub written : Fields → RunMachineState → RunOutcome → Fields → String → Fields
written state m o fields now =
    put
      (update
        (put
          (put
            (put (put state "status" (str (status_value o.status))) "disposition"
              (str (disposition_value m.disposition)))
            "phase" (phase_json m.phase))
          "reason" (opt_str m.reason))
        fields)
      "updated_at" (str now)

pub apply-inversion :
    (state : Fields) (m : RunMachineState) (fields : Fields) (now : String) {st : Fields}
    → apply state m fields now ≡ ok st
    → (o : RunOutcome) × (project_run_outcome m ≡ ok o)
      × (contradicts (get fields "failure") m.reason ≡ false)
      × (written state m o fields now ≡ st)
unfolding apply
apply-inversion state m fields now h = elim (Outcome-cases (project_run_outcome m)) [
  | inl (o, p) ↦ (o, p, ground arith, ground arith)
  | inr (e, p) ↦ absurd (ground arith)
]

module _ (state : Fields) (m : RunMachineState) (fields : Fields) (now : String)
    (unique : IsDict fields) (free : names_control fields ≡ false) where
  lacks_status : has_key fields "status" ≡ false
  unfolding names_control
  lacks_status = ground arith

  lacks_disposition : has_key fields "disposition" ≡ false
  unfolding names_control
  lacks_disposition = ground arith

  lacks_phase : has_key fields "phase" ≡ false
  unfolding names_control
  lacks_phase = ground arith

  lacks_reason : has_key fields "reason" ≡ false
  unfolding names_control
  lacks_reason = ground arith

  written-Applied :
      (o : RunOutcome)
      → project_run_outcome m ≡ ok o
      → contradicts (get fields "failure") m.reason ≡ false
      → Applied state m fields now (written state m o fields now)
  written-Applied o p c = record {
    outcome = o;
    projected = p;
    agrees = c;
    status_read = simp (get-put, get-update, unique, lacks_status);
    disposition_read = simp (get-put, get-update, unique, lacks_disposition);
    phase_read = simp (get-put, get-update, unique, lacks_phase);
    reason_read = simp (get-put, get-update, unique, lacks_reason);
    updated_read = simp get-put;
    failure_read = simp (get-put, get-update, unique);
  }

  pub apply-Applied :
      {st : Fields} → apply state m fields now ≡ ok st → Applied state m fields now st
  apply-Applied h =
      let (o, p, c, e) = apply-inversion state m fields now h in
      subst (Applied state m fields now) e (written-Applied o p c)
