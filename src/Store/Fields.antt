-- ===== src/Store/Fields.antt =====
-- state.py: what is read of the state after a write of `update_metadata`.
use meta_harness.Common.{String, ◌≡◌, refl, ◌∙◌, true, false, Option, none, ◌==◌}
use meta_harness.Common.Outcome.{ok}
use meta_harness.Json.{Fields, get, has_key}
use meta_harness.Json.Laws.{get-put, get-update, IsDict, has_key-put, has_key-update}
use meta_harness.Machine.State.{RunMachineState}
use meta_harness.Store.Disk.{Disk, load, write}
use meta_harness.Store.Machine.{apply}
use meta_harness.Store.Writes.{update_metadata}
use meta_harness.Store.Written.{apply-inversion}
use meta_harness.Store.Inversion.{update_metadata-inversion, update_metadata-writes}

-- The field that a write names is the one that is read afterwards.
pub written_field :
    (state : Fields) (m : RunMachineState) (fields : Fields) (now k : String) {st : Fields}
    → IsDict fields
    → has_key fields k ≡ true
    → "updated_at" == k ≡ false
    → apply state m fields now ≡ ok st
    → (get st k ≡ get fields k) × (has_key st k ≡ true)
written_field state m fields now k unique has other done =
    let (o, p, agrees, made) = apply-inversion state m fields now done in
    (
      rw (← made)
          (get-put _ "updated_at" k _ ∙ rw other (get-update _ fields k unique ∙ rw has refl)),
      rw (← made) (has_key-put _ "updated_at" k _ ∙ rw other (has_key-update _ fields k has)),
    )

pub load-write : (d : Disk) (st : Fields) → load (write d st).state_file ≡ ok st
unfolding load write
load-write d st = refl

-- The state that is loaded after a write has each field that the write names.
pub update_metadata-loads :
    (now : String) (fields : Fields) (d d' : Disk) (w : Option Fields)
    → IsDict fields
    → update_metadata now none fields d ≡ (ok w, d')
    → (st : Fields) × (load d'.state_file ≡ ok st)
      × ((k : String)
          → has_key fields k ≡ true
          → "updated_at" == k ≡ false
          → get st k ≡ get fields k)
update_metadata-loads now fields d d' w unique h =
    let (st, wrote) = update_metadata-writes now fields d d' w h in
    let (s, m, read, done, e) = update_metadata-inversion now fields d none wrote in
    (
      st,
      rw e (load-write d st),
      λ k has other. (written_field s.state m fields now k unique has other done).0,
    )
