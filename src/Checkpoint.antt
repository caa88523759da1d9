-- ===== src/Checkpoint.antt =====
-- checkpoint_identity.py: the schema, the phase and the digest of a run's checkpoint.
-- A file is what reading it gives: nothing, an error of the system, or bytes. Of bytes the program
-- sees what `json.loads` decodes them to, if it does, and their SHA-256.
use meta_harness.Common.{String, Bool, false, not, Option, none, some, nat_eq}
use meta_harness.Common.Outcome.{Outcome, ok, raised, ◌>>=◌, ◌>>◌, refuse_if}
use meta_harness.Json.{ℤ, pos, Value, str, int, obj, Fields, get, has_key}
use meta_harness.Machine.Phase.{RunPhase, phase_of_text}

pub data File : Type 0 where
  missing unreadable : File
  bytes : Option Value → String → File

-- `CheckpointFormatError`, a constructor for each place that raises it.
pub data FormatError : Type 0 where
  file_unreadable undecodable not_an_object schema_not_integer phase_missing : FormatError
  phase_unknown : FormatError

pub record CheckpointStamp : Type 0 where
  pub schema_version : ℤ
  pub phase : RunPhase
  pub sha256 : String

abbrev is_six : ℤ → Bool
is_six (pos n) = nat_eq n 6
is_six n = false

-- `CHECKPOINT_SCHEMA_VERSION` is 6; `CheckpointStamp.current_schema`.
unfoldable pub current_schema : CheckpointStamp → Bool
current_schema s = is_six s.schema_version

-- `RunPhase(payload["phase"])`
unfoldable pub phase_field : Value → Outcome FormatError RunPhase
phase_field (str s) = elim (phase_of_text s) [ some p ↦ ok p | none ↦ raised phase_unknown ]
phase_field v = raised phase_unknown

unfoldable pub schema_field : Value → Outcome FormatError ℤ
schema_field (int n) = ok n
schema_field v = raised schema_not_integer

unfoldable pub stamp_of_fields : Fields → String → Outcome FormatError CheckpointStamp
unfolding phase_field schema_field
stamp_of_fields payload sha = do
  version ← schema_field (get payload "schema_version")
  refuse_if (not (has_key payload "phase")) phase_missing
  phase ← phase_field (get payload "phase")
  ok (record { schema_version = version; phase = phase; sha256 = sha })

-- `stamp_from_payload(payload, sha256=...)`
unfoldable pub stamp_from_payload : Value → String → Outcome FormatError CheckpointStamp
unfolding stamp_of_fields
stamp_from_payload (obj payload) sha = stamp_of_fields payload sha
stamp_from_payload v sha = raised not_an_object

pub record CheckpointFile : Type 0 where
  pub payload : Value
  pub sha256 : String

-- `read_checkpoint_file(run_dir)`
unfoldable pub read_checkpoint_file : File → Outcome FormatError (Option CheckpointFile)
read_checkpoint_file missing = ok none
read_checkpoint_file unreadable = raised file_unreadable
read_checkpoint_file (bytes none sha) = raised undecodable
read_checkpoint_file (bytes (some v) sha) = ok (some (record { payload = v; sha256 = sha }))

unfoldable pub stamp_of_file : Option CheckpointFile → Outcome FormatError (Option CheckpointStamp)
stamp_of_file none = ok none
stamp_of_file (some f) = do stamp ← stamp_from_payload f.payload f.sha256; ok (some stamp)

-- `read_checkpoint_stamp(run_dir)`
unfoldable pub read_checkpoint_stamp : File → Outcome FormatError (Option CheckpointStamp)
unfolding read_checkpoint_file stamp_of_file
read_checkpoint_stamp f = do file ← read_checkpoint_file f; stamp_of_file file

-- `checkpoint_sha256(run_dir)`
unfoldable pub checkpoint_sha256 : File → Option String
checkpoint_sha256 (bytes v sha) = some sha
checkpoint_sha256 _ = none
