-- ===== src/Store/Reporting.antt =====
-- state.py: `record_failure`, the terminal report of a run.
use meta_harness.Common.{
  String, ◌≡◌, ◌≢◌, refl, sym, ◌∙◌, ap, true, false, Option, some, arith, eq_refl, eq_iff, ◌==◌,
  Bool-cases, inl, inr,
}
use meta_harness.Common.Outcome.{ok, raised, ◌>>=◌, Outcome-cases}
use meta_harness.Common.Text.{is_blank, strip}
use meta_harness.Json.{Value, null, str, obj, Fields, get, get_in, has_key, put}
use meta_harness.Json.Laws.{get-put, has_key-put, put-IsDict, IsDict}
use meta_harness.Machine.Phase.{RunPhase}
use meta_harness.Machine.State.{RunMachineState, failed, disposition_value, run_reason, make_state}
use meta_harness.Machine.Projection.{RunOutcome, project_run_outcome, status_failed, status_value}
use meta_harness.Store.Disk.{Disk, failure_contradiction, load, finish, names_control, write}
use meta_harness.Store.Machine.{reporting_stamp, recorded_phase, apply, contradicts}
use meta_harness.Store.Writes.{record_failure, failure_payload, is_detail}
use meta_harness.Store.Written.{apply-Applied}

payload_reason : (r : String) (detail : Value) → get (failure_payload r detail) "reason" ≡ str r
unfolding get failure_payload
payload_reason r null = refl
payload_reason r _ = refl

abbrev with_failure : Fields → String → Value → Fields
with_failure fields r detail = put fields "failure" (obj (failure_payload r detail))

failure_of :
    (fields : Fields) (r : String) (detail : Value)
    → get_in (get (with_failure fields r detail) "failure") "reason" ≡ str r
unfolding get_in
failure_of fields r detail = rw get-put (payload_reason r detail)

module _ (fields : Fields) (r : String) (detail : Value) (q : String) where
  contradicts_same :
      q ≡ r → contradicts (get (with_failure fields r detail) "failure") (some q) ≡ false
  unfolding contradicts
  contradicts_same e = rw (failure_of fields r detail, e, eq_refl)

  contradicts_other :
      (r == q) ≡ false → contradicts (get (with_failure fields r detail) "failure") (some q) ≡ true
  unfolding contradicts
  contradicts_other e = rw (failure_of fields r detail, e)

apply_failed :
    (state : Fields) (m : RunMachineState) (fields : Fields) (now : String)
    → m.disposition ≡ failed
    → contradicts (get fields "failure") m.reason ≡ false
    → (st : Fields) × (apply state m fields now ≡ ok st)
apply_failed state m fields now f c = elim (Outcome-cases (apply state m fields now)) [
  | inl (st, p) ↦ (st, p)
  | inr (e, p) ↦ absurd (unfold apply project_run_outcome in ground arith)
]

apply_contradiction :
    (state : Fields) (m : RunMachineState) (fields : Fields) (now : String)
    → contradicts (get fields "failure") m.reason ≡ true
    → apply state m fields now ≡ raised failure_contradiction
unfolding apply
apply_contradiction state m fields now c = rw c

failed_status :
    (m : RunMachineState) (o : RunOutcome)
    → m.disposition ≡ failed
    → project_run_outcome m ≡ ok o
    → o.status ≡ status_failed
unfolding project_run_outcome
failed_status m o f h = ground arith

differs : (s t : String) → t ≢ s → (s == t) ≡ false
differs s t h = elim (Bool-cases (s == t)) [
  | inl e ↦ absurd (h (sym ((eq_iff s t).0 e)))
  | inr e ↦ e
]

failed_state :
    (p : Option RunPhase) (r : String)
    → is_blank r ≡ false
    → make_state p failed (some r)
      ≡ ok (record { phase = p; disposition = failed; reason = some (strip r) })
unfolding make_state run_reason
failed_state p r h = rw h

names_control-put :
    (fields : Fields) (v : Value)
    → names_control fields ≡ false
    → names_control (put fields "failure" v) ≡ false
unfolding names_control
names_control-put fields v h = simp has_key-put h

module _ (now reason : String) (detail : Value) (fields : Fields) (d : Disk) {state : Fields}
    (filled : is_blank reason ≡ false) (typed : is_detail detail ≡ true)
    (free : names_control fields ≡ false) (unowned : has_key fields "failure" ≡ false)
    (loaded : load d.state_file ≡ ok state) where
  abbrev reported : RunMachineState
  reported = record {
    phase = recorded_phase state (reporting_stamp d);
    disposition = failed;
    reason = some (strip reason);
  }

  record_failure-apply :
      record_failure now reason detail fields d
      ≡ finish d
          (apply state reported (with_failure fields reason detail) now >>= λ st. ok (some st))
  unfolding record_failure
  record_failure-apply =
      rw (filled, typed, free, unowned, loaded)
        (rw (failed_state (recorded_phase state (reporting_stamp d)) reason filled))

  -- Whatever the checkpoint holds, a failure whose reason has no white space around it is recorded:
  -- the run is FAILED with that reason, and the failure payload carries the reason too.
  pub record_failure_total :
      IsDict fields
      → strip reason ≡ reason
      → (st : Fields) × (record_failure now reason detail fields d ≡ (ok (some st), write d st))
        × (get st "disposition" ≡ str (disposition_value failed))
        × (get st "status" ≡ str (status_value status_failed))
        × (get st "reason" ≡ str reason)
        × (get_in (get st "failure") "reason" ≡ str reason)
  record_failure_total unique trimmed =
      let (st, p) =
        apply_failed state reported (with_failure fields reason detail) now refl
          (contradicts_same fields reason detail (strip reason) trimmed) in
      let a =
        apply-Applied state reported (with_failure fields reason detail) now
          (put-IsDict fields "failure" _ unique) (names_control-put fields _ free) p in
      (
        st,
        rw (record_failure-apply, p) (unfold finish in refl),
        a.disposition_read,
        a.status_read
            ∙ ap (λ x. str (status_value x)) (failed_status reported a.outcome refl a.projected),
        a.reason_read ∙ ap str trimmed,
        rw (a.failure_read, has_key-put) (failure_of fields reason detail),
      )

  -- A reason with white space around it passes the check at the top of `record_failure`, and is then
  -- refused as contradicting itself: the run is left without its failure.
  pub record_failure_padded :
      strip reason ≢ reason
      → record_failure now reason detail fields d ≡ (raised failure_contradiction, d)
  record_failure_padded padded =
      rw
        (
          record_failure-apply,
          apply_contradiction state reported (with_failure fields reason detail) now (
              contradicts_other fields reason detail (strip reason)
                (differs reason (strip reason) padded)),
        )
        (unfold finish in refl)
