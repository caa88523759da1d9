-- ===== src/Store/Metadata.antt =====
-- A metadata write never moves the machine, and the state that a write names is the one read back.
use meta_harness.Common.{String, ◌≡◌, refl, sym, ◌∙◌, ap, false, Option, none, some, arith}
use meta_harness.Common.Outcome.{ok, ok-injective, map_raised-eq-ok, refuse_if-eq-ok}
use meta_harness.Json.{str, Fields, get}
use meta_harness.Json.Laws.{IsDict}
use meta_harness.Machine.Phase.{RunPhase}
use meta_harness.Machine.State.{RunMachineState, RunIdentity, run_reason}
use meta_harness.Machine.Projection.{RunOutcome, status_value}
use meta_harness.Machine.Clean.{IsClean, run_reason-IsClean, make_state-fields}
use meta_harness.Machine.Graph.{phase_eq→≡}
use meta_harness.Common.Text.{strip}
use meta_harness.Checkpoint.{CheckpointStamp}
use meta_harness.Store.Disk.{Disk, phase_contradiction, load}
use meta_harness.Store.Machine.{other_phase, resolved_machine, machine_state, outcome}
use meta_harness.Store.Writes.{update_metadata, set_run_state}
use meta_harness.Store.Written.{apply-Applied}
use meta_harness.Store.ReadBack.{
  IsTextual, metadata-Applied, recorded-Applied, phase-Applied, reason_stands,
}
use meta_harness.Store.Inversion.{
  update_metadata-inversion, set_run_state-inversion, machine_state-write,
}

-- When `update_metadata` writes, the machine state that is read afterwards is the one that was read
-- before, and the recorded status is that of its derived outcome. The recorded reason was a text or
-- null, as every write of the store leaves it.
pub machine_state-update_metadata :
    (now : String) (expected : Option RunIdentity) (fields : Fields) (d d' : Disk)
    {state st : Fields}
    → IsDict fields
    → load d.state_file ≡ ok state
    → IsTextual (get state "reason")
    → update_metadata now expected fields d ≡ (ok (some st), d')
    → (m : RunMachineState) × (o : RunOutcome) × (machine_state d ≡ ok m)
      × (machine_state d' ≡ ok m)
      × (outcome d' ≡ ok o)
      × (get st "status" ≡ str (status_value o.status))
unfolding machine_state outcome
machine_state-update_metadata now expected fields d d' {state} {st} unique loaded textual h =
    let (s, m, read, done, e) = update_metadata-inversion now fields d expected h in
    let a = apply-Applied s.state m fields now unique s.free done in
    let same : state ≡ s.state = ok-injective (sym loaded ∙ s.loaded) in
    let back = metadata-Applied a s.stamp (rw same at textual) read in
    let after : machine_state d' ≡ ok m = rw e (machine_state-write d st s.stamped back) in
    (
      m,
      a.outcome,
      rw (s.loaded, s.stamped) read,
      after,
      rw (after, a.projected) refl,
      a.status_read,
    )

names_same : (q p : RunPhase) → other_phase (some q) p ≡ false → p ≡ q
unfolding other_phase
names_same q p h = sym (phase_eq→≡ q p (ground arith))

stripped : (r : String) (q : Option String) → run_reason (some r) ≡ ok q → q ≡ some (strip r)
unfolding run_reason
stripped r q h = ground arith

-- The phase that a caller names is the one that is bound, and the checkpoint's where there is one.
resolved-state :
    (state : Fields) (stamp : Option CheckpointStamp) (machine : RunMachineState)
    {m : RunMachineState}
    → resolved_machine state stamp machine ≡ ok m
    → (m.disposition ≡ machine.disposition)
      × (run_reason machine.reason ≡ ok m.reason)
      × ((p : RunPhase) → machine.phase ≡ some p → m.phase ≡ some p)
      × ((s : CheckpointStamp) → stamp ≡ some s → m.phase ≡ some s.phase)
unfolding resolved_machine
resolved-state state none machine {m} h =
    let (p, d, r) =
      make_state-fields _ machine.disposition machine.reason (map_raised-eq-ok _ _ h) in
    (d, r, λ q e. p ∙ (rw e refl), λ s e. cc)
resolved-state state (some s) machine {m} h =
    let (same, g) = refuse_if-eq-ok (other_phase machine.phase s.phase) phase_contradiction _ h in
    let (p, d, r) =
      make_state-fields (some s.phase) machine.disposition machine.reason
        (map_raised-eq-ok _ _ g) in
    (d, r, λ q e. p ∙ ap some (names_same q s.phase (rw e at same)), λ t e. p ∙ cc)

-- When `set_run_state` writes a state with a reason, that state is what is read afterwards: its
-- posture, its reason without the white space around it, and the phase that it names, if it names one.
pub machine_state-set_run_state :
    (now : String) (machine : RunMachineState) (fields : Fields) (d d' : Disk) {st : Fields}
    (r : String)
    → IsDict fields
    → machine.reason ≡ some r
    → set_run_state now machine fields d ≡ (ok (some st), d')
    → (m : RunMachineState) × (machine_state d' ≡ ok m)
      × (m.disposition ≡ machine.disposition)
      × (m.reason ≡ some (strip r))
      × ((p : RunPhase) → machine.phase ≡ some p → m.phase ≡ some p)
machine_state-set_run_state now machine fields d d' {st} r unique given h =
    let (s, m, bound, done, e) = set_run_state-inversion now fields d machine h in
    let a = apply-Applied s.state m fields now unique s.free done in
    let (posture, reason, named, owned) = resolved-state s.state s.stamp machine bound in
    let said = stripped r m.reason (rw given at reason) in
    let clean : IsClean m.reason = run_reason-IsClean machine.reason m.reason reason in
    let back =
      recorded-Applied a s.stamp clean (phase-Applied a s.stamp owned)
        (rw said (reason_stands (strip r) _ (rw said at clean))) in
    (m, rw e (machine_state-write d st s.stamped back), posture, said, named)
