-- ===== src/Store/Inversion.antt =====
-- What must have held when an operation of the store wrote the state.
use meta_harness.Common.{String, ◌≡◌, Bool, true, false, not, Option, none, some, arith}
use meta_harness.Common.Outcome.{
  Outcome, ok, raised, ◌>>=◌, ◌>>◌, refuse_if, map_raised, bind-ok, refuse_if-eq-ok,
  map_raised-eq-ok,
}
use meta_harness.Json.{Fields}
use meta_harness.Machine.State.{RunMachineState, RunIdentity, RunEvent}
use meta_harness.Machine.Transition.{transition}
use meta_harness.Checkpoint.{CheckpointStamp}
use meta_harness.Store.Disk.{Disk, StoreError, load, write, finish, names_control, control_field}
use meta_harness.Store.Machine.{
  control_stamp, recorded_machine, resolved_machine, identity_in, apply, machine_state,
}
use meta_harness.Store.Writes.{
  same_identity, moved_on, unless, update_metadata, set_run_state, transition_run,
}

-- What a control operation saw of the files.
pub record Seen (d : Disk) (fields : Fields) : Type 0 where
  pub state : Fields
  pub stamp : Option CheckpointStamp
  pub free : names_control fields ≡ false
  pub loaded : load d.state_file ≡ ok state
  pub stamped : control_stamp d ≡ ok stamp

finish-inversion :
    (d : Disk) (w : Outcome StoreError (Option Fields)) {st : Fields} {d' : Disk}
    → finish d w ≡ (ok (some st), d')
    → (w ≡ ok (some st)) × (d' ≡ write d st)
unfolding finish
finish-inversion d (raised e) h = ground arith
finish-inversion d (ok none) h = ground arith
finish-inversion d (ok (some state)) h = ground arith

finish-ok :
    (d : Disk) (w : Outcome StoreError (Option Fields)) {v : Option Fields} {d' : Disk}
    → finish d w ≡ (ok v, d')
    → w ≡ ok v
unfolding finish
finish-ok d (raised e) h = ground arith
finish-ok d (ok none) h = cc
finish-ok d (ok (some state)) h = cc

unless-inversion :
    (b : Bool) (w : Outcome StoreError Fields) {st : Fields}
    → unless b w ≡ ok (some st)
    → (b ≡ false) × (w ≡ ok st)
unless-inversion true w h = ground arith
unless-inversion false (ok s) h = ground arith
unless-inversion false (raised e) h = ground arith

block-Seen :
    (d : Disk) (fields : Fields) {A : Type 0}
    (rest : Fields → Option CheckpointStamp → Outcome StoreError A) {a : A}
    → (refuse_if (names_control fields) control_field
        >> (load d.state_file >>= λ state. control_stamp d >>= λ stamp. rest state stamp))
      ≡ ok a
    → (s : Seen d fields) × (rest s.state s.stamp ≡ ok a)
block-Seen d fields rest h =
    let (free, g) = refuse_if-eq-ok (names_control fields) control_field _ h in
    let (state, loaded, k) = bind-ok (load d.state_file) _ g in
    let (stamp, stamped, r) = bind-ok (control_stamp d) _ k in
    (record { state = state; stamp = stamp; free = free; loaded = loaded; stamped = stamped }, r)

module _ (now : String) (fields : Fields) (d : Disk) {d' : Disk} {st : Fields} where
  pub update_metadata-inversion :
      (expected : Option RunIdentity)
      → update_metadata now expected fields d ≡ (ok (some st), d')
      → (s : Seen d fields) × (m : RunMachineState) × (recorded_machine s.state s.stamp ≡ ok m)
        × (apply s.state m fields now ≡ ok st)
        × (d' ≡ write d st)
  unfolding update_metadata
  update_metadata-inversion expected h =
      let (w, e) = finish-inversion d _ h in
      let (s, r) = block-Seen d fields _ w in
      let (m, read, r') = bind-ok (recorded_machine s.state s.stamp) _ r in
      let (gone, test, r'') =
        bind-ok (moved_on s.state m (identity_in s.state m s.stamp) expected) _ r' in
      let (stays, done) = unless-inversion gone _ r'' in (s, m, read, done, e)

  pub set_run_state-inversion :
      (machine : RunMachineState)
      → set_run_state now machine fields d ≡ (ok (some st), d')
      → (s : Seen d fields) × (m : RunMachineState) × (resolved_machine s.state s.stamp machine
          ≡ ok m)
        × (apply s.state m fields now ≡ ok st)
        × (d' ≡ write d st)
  unfolding set_run_state
  set_run_state-inversion machine h =
      let (w, e) = finish-inversion d _ h in
      let (s, r) = block-Seen d fields _ w in
      let (m, bound, r') = bind-ok (resolved_machine s.state s.stamp machine) _ r in
      let (f, done, r'') = bind-ok (apply s.state m fields now) _ r' in
      (s, m, bound, ground arith, e)

  pub transition_run-inversion :
      (event : RunEvent) (expected : RunIdentity)
      → transition_run now event expected fields d ≡ (ok (some st), d')
      → (s : Seen d fields) × (m n : RunMachineState) × (i : RunIdentity) × (recorded_machine
            s.state s.stamp
          ≡ ok m)
        × (identity_in s.state m s.stamp ≡ ok i)
        × (same_identity i expected ≡ true)
        × (transition m event ≡ ok n)
        × (apply s.state n fields now ≡ ok st)
        × (d' ≡ write d st)
  unfolding transition_run
  transition_run-inversion event expected h =
      let (w, e) = finish-inversion d _ h in
      let (s, r) = block-Seen d fields _ w in
      let (m, read, r') = bind-ok (recorded_machine s.state s.stamp) _ r in
      let (i, named, r'') = bind-ok (identity_in s.state m s.stamp) _ r' in
      let (same, r3) = unless-inversion (not (same_identity i expected)) _ r'' in
      let (n, legal, done) = bind-ok (map_raised _ (transition m event)) _ r3 in
      (s, m, n, i, read, named, ground arith, map_raised-eq-ok _ _ legal, done, e)

-- What is read from a disk after a write.
pub machine_state-write :
    (d : Disk) (st : Fields) {stamp : Option CheckpointStamp} {m : RunMachineState}
    → control_stamp d ≡ ok stamp
    → recorded_machine st stamp ≡ ok m
    → machine_state (write d st) ≡ ok m
unfolding machine_state load write control_stamp
machine_state-write d st p q = rw (p, q)

-- A write with no expectation never returns `None`.
pub update_metadata-writes :
    (now : String) (fields : Fields) (d d' : Disk) (w : Option Fields)
    → update_metadata now none fields d ≡ (ok w, d')
    → (st : Fields) × (update_metadata now none fields d ≡ (ok (some st), d'))
unfolding update_metadata moved_on
update_metadata-writes now fields d d' (some st) h = (st, h)
update_metadata-writes now fields d d' none h =
    let (s, r) = block-Seen d fields _ (finish-ok d _ h) in
    let (m, read, r') = bind-ok (recorded_machine s.state s.stamp) _ r in
    let (st, done, e) = bind-ok (apply s.state m fields now) _ r' in cc
