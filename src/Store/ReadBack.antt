-- ===== src/Store/ReadBack.antt =====
-- A machine state that was written is the machine state that is read.
use meta_harness.Common.{
  String, ◌≡◌, refl, sym, ◌∙◌, ap, true, false, Option, none, some, arith, Bool-cases, inl, inr,
}
use meta_harness.Common.Outcome.{ok, bind-ok, ok-injective, map_raised-eq-ok}
use meta_harness.Common.Text.{is_blank}
use meta_harness.Json.{
  Value, null, str, bool, int, float, arr, obj, Fields, truthy, get, get_in, has_key, opt_str,
}
use meta_harness.Machine.Phase.{RunPhase, context, planner, phase_value, phase_of_text}
use meta_harness.Machine.State.{
  RunDisposition, running, disposition_value, disposition_of_text, RunMachineState, run_reason,
  make_state, coerce_phase, coerce_disposition,
}
use meta_harness.Machine.Projection.{recorded_posture, assemble_run_state, resolved_reason}
use meta_harness.Machine.Clean.{IsClean, run_reason-IsClean, make_state_clean}
use meta_harness.Checkpoint.{CheckpointStamp}
use meta_harness.Store.Machine.{
  phase_json, phase_recorded_in, recorded_phase, recorded_machine, contradicts,
}
use meta_harness.Store.Written.{Applied}

-- A member is found again from its value.
pub phase_of_text-phase_value : (p : RunPhase) → phase_of_text (phase_value p) ≡ some p
unfolding phase_of_text
phase_of_text-phase_value context = refl
phase_of_text-phase_value planner = refl
phase_of_text-phase_value _ = refl

pub disposition_of_text-value :
    (d : RunDisposition) → disposition_of_text (disposition_value d) ≡ some d
unfolding disposition_of_text
disposition_of_text-value running = refl
disposition_of_text-value _ = refl

coerce_phase-json : (p : Option RunPhase) → coerce_phase (phase_json p) ≡ ok p
unfolding coerce_phase
coerce_phase-json none = refl
coerce_phase-json (some p) = rw (phase_of_text-phase_value p, coerce_phase)

pub phase_recorded_in-json :
    (st : Fields) (p : Option RunPhase) → get st "phase" ≡ phase_json p → phase_recorded_in st ≡ p
unfolding phase_recorded_in
phase_recorded_in-json st none e = rw e
phase_recorded_in-json st (some p) e = rw e (phase_of_text-phase_value p)

strip_empty : is_blank String.[] ≡ true
unfolding is_blank
strip_empty = refl

-- A reason that the machine holds is read before any failure reason.
pub reason_stands : (r : String) (f : Value) → IsClean (some r) → resolved_reason (str r) f ≡ some r
unfolding resolved_reason truthy run_reason
reason_stands String.[] f h = let g = rw strip_empty at h in cc
reason_stands (String.◌∷◌ c s) f h = refl

abbrev pub IsTextual : Value → Type 0
IsTextual null = Unit
IsTextual (str s) = Unit
IsTextual _ = ⊥

pub assemble_back :
    (p : Option RunPhase) (d : RunDisposition) (v : Value) (r : Option String)
    (reason failure : Value)
    → resolved_reason reason failure ≡ r
    → IsClean r
    → assemble_run_state (phase_json p) (str (disposition_value d)) v reason failure
      ≡ ok (record { phase = p; disposition = d; reason = r })
unfolding assemble_run_state coerce_disposition
assemble_back p d v r reason failure e c =
    rw (disposition_of_text-value d, coerce_disposition)
      (rw (coerce_phase-json p, e) (make_state_clean p d r c))

module _ {state fields st : Fields} {m : RunMachineState} {now : String}
    (a : Applied state m fields now st) where
  pub recorded_at-Applied :
      (stamp : Option CheckpointStamp)
      → IsClean m.reason
      → resolved_reason (opt_str m.reason) (get_in (get st "failure") "reason") ≡ m.reason
      → recorded_machine st stamp ≡ ok (record m { phase = recorded_phase st stamp })
  unfolding recorded_machine
  recorded_at-Applied stamp c r =
      rw (a.disposition_read, a.reason_read)
        (rw (
          assemble_back (recorded_phase st stamp) m.disposition (get st "status") m.reason
            (opt_str m.reason) (get_in (get st "failure") "reason") r c))

  pub recorded-Applied :
      (stamp : Option CheckpointStamp)
      → IsClean m.reason
      → recorded_phase st stamp ≡ m.phase
      → resolved_reason (opt_str m.reason) (get_in (get st "failure") "reason") ≡ m.reason
      → recorded_machine st stamp ≡ ok m
  recorded-Applied stamp c p r =
      recorded_at-Applied stamp c r
      ∙ ap (λ q. ok (record { phase = q; disposition = m.disposition; reason = m.reason })) p

  -- The phase that is read is the one that was written, or the checkpoint's that it agrees with.
  pub phase-Applied :
      (stamp : Option CheckpointStamp)
      → ((s : CheckpointStamp) → stamp ≡ some s → m.phase ≡ some s.phase)
      → recorded_phase st stamp ≡ m.phase
  unfolding recorded_phase
  phase-Applied none h = phase_recorded_in-json st m.phase a.phase_read
  phase-Applied (some s) h = sym (h s refl)

assemble-inversion :
    (p : Option RunPhase) (d v r f : Value) {m : RunMachineState}
    → assemble_run_state (phase_json p) d v r f ≡ ok m
    → (m.phase ≡ p) × (run_reason (resolved_reason r f) ≡ ok m.reason)
unfolding assemble_run_state make_state
assemble-inversion p d v r f {m} h =
    let (d', a, b) = bind-ok (recorded_posture d v) _ h in
    let (p', a', b') = bind-ok (coerce_phase (phase_json p)) _ b in
    let (r', a'', b'') = bind-ok (run_reason (resolved_reason r f)) _ b' in
    let same = ok-injective b'' in
    let at : p' ≡ p = ok-injective (sym a' ∙ coerce_phase-json p) in
    (
      ap (λ (n : RunMachineState). n.phase) (sym same) ∙ at,
      a'' ∙ ap ok (ap (λ (n : RunMachineState). n.reason) same),
    )

-- What the recorded facts must have been for a machine state to be read from them.
pub recorded-inversion :
    (state : Fields) (stamp : Option CheckpointStamp) {m : RunMachineState}
    → recorded_machine state stamp ≡ ok m
    → (m.phase ≡ recorded_phase state stamp)
      × (run_reason (resolved_reason (get state "reason") (get_in (get state "failure") "reason"))
          ≡ ok m.reason)
unfolding recorded_machine
recorded-inversion state stamp h =
    assemble-inversion (recorded_phase state stamp) (get state "disposition") (get state "status")
      (get state "reason") (get_in (get state "failure") "reason") (map_raised-eq-ok _ _ h)

none-contradicts : (f : Value) → contradicts f none ≡ false → get_in f "reason" ≡ null
unfolding contradicts
none-contradicts f h = ground arith

run_reason-none : (o : Option String) → run_reason o ≡ ok none → o ≡ none
unfolding run_reason
run_reason-none none h = refl
run_reason-none (some s) h = ground arith

no_reason :
    (v f : Value)
    → IsTextual v
    → run_reason (resolved_reason v f) ≡ ok none
    → resolved_reason null f ≡ none
unfolding resolved_reason truthy
no_reason null f t h = run_reason-none _ h
no_reason (str String.[]) f t h = run_reason-none _ h
no_reason (str (String.◌∷◌ c s)) f t h = cc (run_reason-none _ h)
no_reason (bool b) f t h = elim t [ ]
no_reason (int n) f t h = elim t [ ]
no_reason (float b s) f t h = elim t [ ]
no_reason (arr xs) f t h = elim t [ ]
no_reason (obj fs) f t h = elim t [ ]

null_reason : resolved_reason null null ≡ none
unfolding resolved_reason truthy
null_reason = refl

module _ {state fields st : Fields} {m : RunMachineState} {now : String}
    (a : Applied state m fields now st) where
  -- A write that gives the failure anew leaves no stale failure reason.
  pub reason_given :
      (r : Option String)
      → m.reason ≡ r
      → IsClean r
      → has_key fields "failure" ≡ true
      → resolved_reason (opt_str r) (get_in (get st "failure") "reason") ≡ r
  reason_given (some r) e c given = reason_stands r _ c
  reason_given none e c given =
      rw (a.failure_read, given, none-contradicts (get fields "failure") (rw e at a.agrees))
        null_reason

-- After a write that changed no reason, no stale failure reason takes its place.
module _ {state fields st : Fields} {m : RunMachineState} {now : String}
    (a : Applied state m fields now st) where
  reason_kept :
      (r : Option String)
      → m.reason ≡ r
      → IsClean r
      → IsTextual (get state "reason")
      → run_reason (resolved_reason (get state "reason") (get_in (get state "failure") "reason"))
        ≡ ok r
      → resolved_reason (opt_str r) (get_in (get st "failure") "reason") ≡ r
  reason_kept (some r) e c t h = reason_stands r _ c
  reason_kept none e c t h = elim (Bool-cases (has_key fields "failure")) [
    | inl given ↦ reason_given a none e c given
    | inr kept ↦ rw (a.failure_read, kept) (no_reason (get state "reason") _ t h)
  ]

  pub metadata-Applied :
      (stamp : Option CheckpointStamp)
      → IsTextual (get state "reason")
      → recorded_machine state stamp ≡ ok m
      → recorded_machine st stamp ≡ ok m
  metadata-Applied stamp t h =
      let (p, r) = recorded-inversion state stamp h in
      let c : IsClean m.reason = run_reason-IsClean _ m.reason r in
      recorded-Applied a stamp c
        (phase-Applied a stamp (λ s e. p ∙ (rw e (unfold recorded_phase in refl))))
        (reason_kept m.reason refl c t r)
