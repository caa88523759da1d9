-- ===== src/Resume/Checkpoint.antt =====
-- resume.py: `ResumeCheckpoint`, its payload, and how the checkpoint file is read and moved.
use meta_harness.Common.{
  ℕ, zero, suc, String, Bool, true, false, not, ◌&&◌, ◌||◌, Option, none, some, List, [], ◌∷◌, ◌==◌,
  nat_eq, if◌then◌else◌, is_some,
}
use meta_harness.Common.Outcome.{Outcome, ok, raised, ◌>>=◌, ◌>>◌, refuse_if, map_raised}
use meta_harness.Common.Text.Hex.{is_sha256, is_object_id}
use meta_harness.Json.{
  pos, Value, null, str, int, obj, Fields, end, field, get, has_key, opt_str, opt_int,
}
use meta_harness.Machine.Phase.{
  RunPhase, implement_step, context, planner, plan_approval, worktree_setup, phase_value, phase_eq,
  phase_in,
}
use meta_harness.Checkpoint.{
  File, bytes, FormatError, current_schema, CheckpointFile, stamp_from_payload,
  read_checkpoint_file,
}
use meta_harness.Store.Disk.{Disk}

-- `ResumeCheckpointError`, a constructor for each place; `schema_unsupported` is the
-- `ResumeSchemaUnsupportedError` below it.
pub data CheckpointError : Type 0 where
  bad_iteration step_index_needed step_index_unused bad_commit bad_plan : CheckpointError
  plan_needed commit_needed not_an_object wrong_fields schema_unsupported : CheckpointError
  format_error : FormatError → CheckpointError

pub record ResumeCheckpoint : Type 0 where
  pub phase : RunPhase
  pub iteration : ℕ
  pub step_index : Option ℕ
  pub last_green_commit : Option String
  pub plan_sha256 : Option String

unfoldable pub iteration_field : Value → Outcome CheckpointError ℕ
iteration_field (int (pos zero)) = raised bad_iteration
iteration_field (int (pos (suc n))) = ok (suc n)
iteration_field v = raised bad_iteration

-- The two tests of `step_index`.
unfoldable pub step_field : Bool → Value → Outcome CheckpointError (Option ℕ)
step_field true (int (pos n)) = ok (some n)
step_field true v = raised step_index_needed
step_field false null = ok none
step_field false v = raised step_index_unused

-- A digest or `None`, by its pattern.
unfoldable pub digest_field :
    (String → Bool) → CheckpointError → Value → Outcome CheckpointError (Option String)
digest_field pattern e null = ok none
digest_field pattern e (str s) = if pattern s then ok (some s) else raised e
digest_field pattern e v = raised e

abbrev pub early : List RunPhase
early = context ∷ planner ∷ []

abbrev pub before_commit : List RunPhase
before_commit = context ∷ planner ∷ plan_approval ∷ worktree_setup ∷ []

-- `ResumeCheckpoint(phase, iteration, step_index, last_green_commit, plan_sha256)`
unfoldable pub make_checkpoint :
    RunPhase → Value → Value → Value → Value → Outcome CheckpointError ResumeCheckpoint
unfolding iteration_field step_field digest_field
make_checkpoint phase iteration step commit plan = do
  n ← iteration_field iteration
  i ← step_field (phase_eq phase implement_step) step
  g ← digest_field is_object_id bad_commit commit
  h ← digest_field is_sha256 bad_plan plan
  refuse_if (not (phase_in phase early) && not (is_some h)) plan_needed
  refuse_if (not (phase_in phase before_commit) && not (is_some g)) commit_needed
  ok (record {
    phase = phase;
    iteration = n;
    step_index = i;
    last_green_commit = g;
    plan_sha256 = h;
  })

-- `checkpoint_payload`
unfoldable pub checkpoint_payload : ResumeCheckpoint → Fields
checkpoint_payload c = field "schema_version" (int (pos 6)) (
    field "iteration" (int (pos c.iteration)) (
      field "phase" (str (phase_value c.phase)) (
        field "step_index" (opt_int c.step_index) (
          field "last_green_commit" (opt_str c.last_green_commit)
            (field "plan_sha256" (opt_str c.plan_sha256) end)))))

unfoldable pub is_field : String → Bool
is_field k =
    k == "schema_version"
    || (k == "iteration"
        || (k == "phase"
            || (k == "step_index" || (k == "last_green_commit" || k == "plan_sha256"))))

unfoldable pub only_fields : Fields → Bool
unfolding is_field
only_fields end = true
only_fields (field k v fs) = is_field k && only_fields fs

-- `set(payload) == _FIELDS`
unfoldable pub exact_fields : Fields → Bool
unfolding only_fields
exact_fields d =
    only_fields d
    && (has_key d "schema_version"
        && (has_key d "iteration"
            && (has_key d "phase"
                && (has_key d "step_index"
                    && (has_key d "last_green_commit" && has_key d "plan_sha256")))))

-- `isinstance(version, int) and version != CHECKPOINT_SCHEMA_VERSION`
unfoldable pub other_version : Value → Bool
other_version (int (pos n)) = not (nat_eq n 6)
other_version (int n) = true
other_version v = false

-- `_parse(payload, sha256=...)`
unfoldable pub parse_checkpoint : Value → String → Outcome CheckpointError ResumeCheckpoint
unfolding exact_fields other_version make_checkpoint
parse_checkpoint (obj d) sha = do
  refuse_if (other_version (get d "schema_version")) schema_unsupported
  stamp ← map_raised format_error (stamp_from_payload (obj d) sha)
  refuse_if (not (current_schema stamp)) schema_unsupported
  refuse_if (not (exact_fields d)) wrong_fields
  make_checkpoint stamp.phase (get d "iteration") (get d "step_index") (get d "last_green_commit")
      (get d "plan_sha256")
parse_checkpoint v sha = raised not_an_object

unfoldable pub parse_file :
    Option CheckpointFile → Outcome CheckpointError (Option ResumeCheckpoint)
unfolding parse_checkpoint
parse_file none = ok none
parse_file (some f) = do c ← parse_checkpoint f.payload f.sha256; ok (some c)

-- `read_checkpoint_record`
unfoldable pub read_checkpoint_record : File → Outcome CheckpointError (Option ResumeCheckpoint)
unfolding parse_file
read_checkpoint_record f = do
  file ← map_raised format_error (read_checkpoint_file f)
  parse_file file

-- The digest of a checkpoint's file is hashlib's, of the text that `json.dumps` prints.
module _ (digest : Fields → String) where
  -- `write_checkpoint`
  unfoldable pub write_checkpoint : ResumeCheckpoint → Disk → Disk
  unfolding checkpoint_payload
  write_checkpoint c d = record d {
    checkpoint = bytes (some (obj (checkpoint_payload c))) (digest (checkpoint_payload c));
  }

  -- `replace(record, phase=..., step_index=...)`
  unfoldable pub moved : RunPhase → ResumeCheckpoint → Outcome CheckpointError ResumeCheckpoint
  unfolding make_checkpoint
  moved phase c =
      make_checkpoint phase (int (pos c.iteration))
        (if phase_eq phase implement_step then opt_int c.step_index else null)
        (opt_str c.last_green_commit) (opt_str c.plan_sha256)

  abbrev pub rewritten :
      Disk → Outcome CheckpointError ResumeCheckpoint → Outcome CheckpointError (Unit {0}) × Disk
  rewritten d (ok c) = (ok tt, write_checkpoint c d)
  rewritten d (raised e) = (raised e, d)

  unfoldable pub rephase :
      RunPhase
      → Outcome CheckpointError (Option ResumeCheckpoint)
      → Disk
      → Outcome CheckpointError (Unit {0}) × Disk
  unfolding moved
  rephase phase (raised e) d = (raised e, d)
  rephase phase (ok none) d = (ok tt, d)
  rephase phase (ok (some c)) d =
      if phase_eq c.phase phase then (ok tt, d) else rewritten d (moved phase c)

  -- `rephase_checkpoint`
  unfoldable pub rephase_checkpoint : RunPhase → Disk → Outcome CheckpointError (Unit {0}) × Disk
  unfolding rephase
  rephase_checkpoint phase d = rephase phase (read_checkpoint_record d.checkpoint) d
