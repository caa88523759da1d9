-- ===== src/Store/Transitions.antt =====
-- What a successful compare-and-set claim of a run proves.
use meta_harness.Common.{
  String, ◌≡◌, refl, ◌∙◌, ap, true, false, Option, none, some, ◌⊎◌, inl, inr, Bool-cases, arith,
}
use meta_harness.Common.Outcome.{ok}
use meta_harness.Json.{str, Fields, get, has_key, opt_str}
use meta_harness.Json.Laws.{IsDict}
use meta_harness.Machine.Phase.{RunPhase}
use meta_harness.Machine.State.{
  RunDisposition, disposition_value, RunMachineState, RunEvent, RunIdentity,
}
use meta_harness.Machine.Clean.{none-IsClean, IsClean}
use meta_harness.Machine.Graph.{phase_eq→≡}
use meta_harness.Machine.Legal.{
  Step, advances, waits_external, waits_human, fails, completes, resumes, transition_iff,
}
use meta_harness.Checkpoint.{CheckpointStamp}
use meta_harness.Store.Disk.{Disk, load}
use meta_harness.Store.Fields.{load-write}
use meta_harness.Store.Machine.{
  phase_json, control_stamp, machine_state, identity, recorded_phase, recorded_machine,
}
use meta_harness.Store.Writes.{same_phase, same_posture, same_identity, transition_run}
use meta_harness.Store.Written.{Applied, apply-Applied}
use meta_harness.Store.ReadBack.{
  recorded_at-Applied, reason_given, reason_stands, phase_recorded_in-json,
}
use meta_harness.Store.Inversion.{transition_run-inversion, machine_state-write}
use meta_harness.Common.Names.{same_text-eq}

Step-IsClean :
    {m : RunMachineState} {e : RunEvent} {n : RunMachineState}
    → IsClean e.reason
    → Step m e n
    → IsClean n.reason
Step-IsClean c (advances k d f g edge r) = rw r none-IsClean
Step-IsClean c (waits_external k d p r) = rw r c
Step-IsClean c (waits_human k d p q r) = rw r c
Step-IsClean c (fails k d r) = rw r c
Step-IsClean c (completes k d f q r) = rw r none-IsClean
Step-IsClean c (resumes k q r) = rw r none-IsClean

same_phase-eq : (a b : Option RunPhase) → same_phase a b ≡ true → a ≡ b
unfolding same_phase
same_phase-eq none none h = refl
same_phase-eq (some p) (some q) h = ap some (phase_eq→≡ p q h)
same_phase-eq none (some q) h = cc
same_phase-eq (some p) none h = cc

same_posture-eq : (a b : RunDisposition) → same_posture a b ≡ true → a ≡ b
unfolding same_posture
same_posture-eq a b h = ground arith

same_identity-eq : (a b : RunIdentity) → same_identity a b ≡ true → a ≡ b
unfolding same_identity
same_identity-eq a b h = ground (
  arith,
  same_phase-eq a.phase b.phase,
  same_posture-eq a.disposition b.disposition,
  same_text-eq a.reason b.reason,
  same_text-eq a.updated_at b.updated_at,
  same_text-eq a.checkpoint_sha256 b.checkpoint_sha256,
)

-- The phase of a checkpoint where there is one, and the machine's own otherwise.
abbrev pub owned : Option CheckpointStamp → Option RunPhase → Option RunPhase
owned none p = p
owned (some s) p = some s.phase

recorded_phase-owned :
    (st : Fields) (stamp : Option CheckpointStamp) (p : Option RunPhase)
    → get st "phase" ≡ phase_json p
    → recorded_phase st stamp ≡ owned stamp p
unfolding recorded_phase
recorded_phase-owned st none p e = phase_recorded_in-json st p e
recorded_phase-owned st (some s) p e = refl

-- The reason that is read behind a write is the machine's, or that is none and the write kept the failure
-- that was recorded.
reason_or_kept :
    {state fields st : Fields} {n : RunMachineState} {now : String}
    (a : Applied state n fields now st) (stamp : Option CheckpointStamp)
    → IsClean n.reason
    → ((n.reason ≡ none) × (has_key fields "failure" ≡ false))
      ⊎ (recorded_machine st stamp ≡ ok (record n { phase = recorded_phase st stamp }))
reason_or_kept {fields = fields} {st = st} {n = n} a stamp c =
    elim (Bool-cases (has_key fields "failure")) [
      | inl given ↦ inr (recorded_at-Applied a stamp c (reason_given a n.reason refl c given))
      | inr kept ↦ by_reason n.reason refl kept
    ]
  where
    by_reason :
        (r : Option String)
        → n.reason ≡ r
        → has_key fields "failure" ≡ false
        → ((n.reason ≡ none) × (has_key fields "failure" ≡ false))
          ⊎ (recorded_machine st stamp ≡ ok (record n { phase = recorded_phase st stamp }))
    by_reason none e kept = inl (e, kept)
    by_reason (some r) e kept =
        inr (recorded_at-Applied a stamp c (rw e (reason_stands r _ (rw e at c))))

-- When `transition_run` writes, for an event whose reason is normalised, the run still had exactly the
-- expected identity and the event was a
-- legal step of its machine state; the disposition, the phase and the reason that are written are those
-- of the step. They are also what is read afterwards, with the phase of the checkpoint where there is
-- one, unless the step leaves no reason and the write does not give the failure anew.
pub transition_run-Step :
    (now : String) (event : RunEvent) (expected : RunIdentity) (fields : Fields) (d d' : Disk)
    {st : Fields}
    → IsDict fields
    → IsClean event.reason
    → transition_run now event expected fields d ≡ (ok (some st), d')
    → (m n : RunMachineState) × (stamp : Option CheckpointStamp) × (machine_state d ≡ ok m)
      × (identity d ≡ ok expected)
      × Step m event n
      × (control_stamp d ≡ ok stamp)
      × (load d'.state_file ≡ ok st)
      × (get st "disposition" ≡ str (disposition_value n.disposition))
      × (get st "phase" ≡ phase_json n.phase)
      × (get st "reason" ≡ opt_str n.reason)
      × (((n.reason ≡ none) × (has_key fields "failure" ≡ false))
          ⊎ (machine_state d' ≡ ok (record n { phase = owned stamp n.phase })))
transition_run-Step now event expected fields d d' {st} unique clean h =
    let (s, m, n, i, read, named, same, legal, done, e) =
      transition_run-inversion now fields d event expected h in
    let a = apply-Applied s.state n fields now unique s.free done in
    let step = (transition_iff m event n clean).0 legal in
    (
      m,
      n,
      s.stamp,
      unfold machine_state in rw (s.loaded, s.stamped) read,
      unfold identity in
          rw (s.loaded, s.stamped, read, named) (ap ok (same_identity-eq i expected same)),
      step,
      s.stamped,
      rw e (load-write d st),
      a.disposition_read,
      a.phase_read,
      a.reason_read,
      elim (reason_or_kept a s.stamp (Step-IsClean clean step)) [
        | inl kept ↦ inl kept
        | inr back ↦ inr (
            rw e (
              machine_state-write d st s.stamped (
                back
                ∙ ap
                    (λ p. ok (record { phase = p; disposition = n.disposition; reason = n.reason }))
                    (recorded_phase-owned st s.stamp n.phase a.phase_read))))
      ],
    )
