-- ===== src/Store/Races.antt =====
-- Compare-and-set: two writers that observed the same run cannot both claim it.
use meta_harness.Common.{String, ◌≡◌, ◌≢◌, refl, sym, ◌∙◌, true, Option, some, arith}
use meta_harness.Common.Outcome.{ok, ok-injective, map_raised-eq-ok}
use meta_harness.Json.{Fields, get, as_str}
use meta_harness.Json.Laws.{IsDict}
use meta_harness.Machine.State.{RunMachineState, RunIdentity, RunEvent, identity_of}
use meta_harness.Checkpoint.{CheckpointStamp}
use meta_harness.Store.Disk.{Disk, load, write}
use meta_harness.Store.Machine.{identity_in}
use meta_harness.Common.Names.{same_text-eq}
use meta_harness.Store.Writes.{same_identity, transition_run}
use meta_harness.Store.Written.{apply-Applied}
use meta_harness.Store.Inversion.{transition_run-inversion}

same_identity-updated : (a b : RunIdentity) → same_identity a b ≡ true → a.updated_at ≡ b.updated_at
unfolding same_identity
same_identity-updated a b h = same_text-eq a.updated_at b.updated_at (ground arith)

identity_of-updated :
    (m : RunMachineState) (u c : Option String) {i : RunIdentity}
    → identity_of m u c ≡ ok i
    → i.updated_at ≡ u
unfolding identity_of
identity_of-updated m u c h = ground arith

identity_in-updated :
    (state : Fields) (m : RunMachineState) (stamp : Option CheckpointStamp) {i : RunIdentity}
    → identity_in state m stamp ≡ ok i
    → i.updated_at ≡ as_str (get state "updated_at")
unfolding identity_in
identity_in-updated state m stamp h = identity_of-updated m _ _ (map_raised-eq-ok _ _ h)

load-write : (d : Disk) (st : Fields) → load (write d st).state_file ≡ ok st
unfolding load write
load-write d st = refl

-- Two claims of one observed identity: once the first has written, at a moment other than the
-- observed one, the second writes nothing, whatever its event and its fields.
pub transition_run_once :
    (now later : String) (first second : RunEvent) (expected : RunIdentity) (fields more : Fields)
    (d d₁ d₂ : Disk) (st st₂ : Fields)
    → IsDict fields
    → expected.updated_at ≢ some now
    → transition_run now first expected fields d ≡ (ok (some st), d₁)
    → transition_run later second expected more d₁ ≢ (ok (some st₂), d₂)
transition_run_once now later first second expected fields more d d₁ d₂ st st₂ unique moved h h₂ =
    let (s, m, n, i, read, named, same, legal, done, e) =
      transition_run-inversion now fields d first expected h in
    let (s₂, m₂, n₂, i₂, read₂, named₂, same₂, legal₂, done₂, e₂) =
      transition_run-inversion later more d₁ second expected h₂ in
    let a = apply-Applied s.state n fields now unique s.free done in
    let there : st ≡ s₂.state = ok-injective (sym (load-write d st) ∙ (rw e at s₂.loaded)) in
    let seen : i₂.updated_at ≡ as_str (get s₂.state "updated_at") =
      identity_in-updated s₂.state m₂ s₂.stamp named₂ in
    moved
      (sym (same_identity-updated i₂ expected same₂) ∙ (seen ∙ rw (← there, a.updated_read) refl))
