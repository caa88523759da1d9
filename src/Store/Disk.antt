-- ===== src/Store/Disk.antt =====
-- state.py: the files of a run directory, the errors of the store and what a locked block does.
-- One operation holds `state.lock` from its first read to its write, so it is one step on the files.
use meta_harness.Common.{Bool, Option, none, some, ◌||◌}
use meta_harness.Common.Outcome.{Outcome, ok, raised}
use meta_harness.Json.{obj, Fields, has_key}
use meta_harness.Machine.State.{MachineError}
use meta_harness.Checkpoint.{File, bytes, FormatError}

pub record Disk : Type 0 where
  pub state_file : File
  pub checkpoint : File

pub data StoreError : Type 0 where
  run_id_invalid pipeline_version_invalid control_field state_unreadable : StoreError
  state_undecodable state_not_object foreign_schema phase_contradiction : StoreError
  failure_contradiction reason_empty detail_type owns_failure : StoreError
  checkpoint_format : FormatError → StoreError
  machine_error : MachineError → StoreError

-- `load`: a missing file is an `OSError` too.
unfoldable pub load : File → Outcome StoreError Fields
load (bytes (some (obj state)) sha) = ok state
load (bytes (some v) sha) = raised state_not_object
load (bytes none sha) = raised state_undecodable
load _ = raised state_unreadable

-- `_write`: the replaced file decodes to the state that was written. Its digest is never read.
unfoldable pub write : Disk → Fields → Disk
write d state = record d { state_file = bytes (some (obj state)) "" }

-- The end of a locked block: a raise and a returned `None` leave the files alone.
unfoldable pub finish :
    Disk → Outcome StoreError (Option Fields) → Outcome StoreError (Option Fields) × Disk
finish d (raised e) = (raised e, d)
finish d (ok none) = (ok none, d)
finish d (ok (some state)) = (ok (some state), write d state)

-- `fields.keys() & CONTROL_FIELDS`
unfoldable pub names_control : Fields → Bool
names_control fs =
    has_key fs "status" || has_key fs "disposition" || has_key fs "phase" || has_key fs "reason"
