-- ===== src/Store/Refused.antt =====
-- state.py and checkpoint_identity.py: the checkpoint as the authority of the phase.
use meta_harness.Common.{String, ◌≡◌, some}
use meta_harness.Json.{pos, str, int, obj, Fields, get}
use meta_harness.Machine.Phase.{RunPhase, phase_value}
use meta_harness.Checkpoint.{File, missing, bytes}
use meta_harness.Store.Disk.{Disk}

-- No checkpoint, or a document of schema 6 whose phase is the value of a member.
pub data IsAuthority : File → Type 0 where
  absent : IsAuthority missing
  stamped :
      (d : Fields) (sha : String) (p : RunPhase)
      → get d "schema_version" ≡ int (pos 6)
      → get d "phase" ≡ str (phase_value p)
      → IsAuthority (bytes (some (obj d)) sha)
