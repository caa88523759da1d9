-- ===== src/Steps/Finalize.antt =====
-- orchestration/step_execution.py: `_finalize_accepted_step`, which records one committed step in the
-- run's directory and its store. The trace is left out.
use meta_harness.Common.{String, Bool, true, false, Option, none, if◌then◌else◌}
use meta_harness.Common.Outcome.{Outcome, ok, raised, map_raised}
use meta_harness.Common.Effect.{Effect, ◌>>=◌, ◌>>◌, reading, giving}
use meta_harness.Json.{
  pos, Value, null, str, int, obj, arr, Fields, end, field, Items, nil, cons, get, put, update,
  truthy, opt_str, text_items,
}
use meta_harness.Store.Disk.{Disk, StoreError, load}
use meta_harness.Store.Writes.{update_metadata}
use meta_harness.Attempt.Audit.{GitFailure}
use meta_harness.Commit.Safety.{CommitError}
use meta_harness.Commit.Record.{is_word}
use meta_harness.Steps.Attempt.{keys_of, characters}

-- The store of a run, and the documents in three of its JSON files, which are as `json_text` prints them:
-- `null` for a file that is missing or no JSON.
pub record RunDir : Type 0 where
  pub disk : Disk
  pub step_record : Value
  pub accepted_chain : Value
  pub acceptance : Value

-- What an acceptance raises.
pub data AcceptError : Type 0 where
  head_moved not_the_current_tree neither_unchanged_nor_deferred not_iterable : AcceptError
  refused : CommitError → AcceptError
  not_stored : StoreError → AcceptError
  git_failed : GitFailure → AcceptError
  not_written : String → AcceptError

-- What the record and its environment say of a committed step.
pub record Committed : Type 0 where
  pub step_id : String
  pub commit_sha : String
  pub parent_sha : String
  pub tree_after : String
  pub verification_status : String
  pub row : Fields
  pub authority_sha256 : String
  pub contract_sha256 : String
  pub next_step : Option String

-- `list(value or [])`
unfoldable pub listed : Value → Outcome AcceptError Items
unfolding truthy keys_of characters
listed (arr vs) = ok vs
listed (obj fs) = ok (text_items (keys_of fs))
listed (str s) = ok (text_items (characters s))
listed v = if truthy v then raised not_iterable else ok nil

unfoldable pub all_objects : Items → Bool
all_objects nil = true
all_objects (cons (obj d) vs) = all_objects vs
all_objects (cons v vs) = false

unfoldable pub rows_or_none : Value → Items
unfolding all_objects
rows_or_none (arr vs) = if all_objects vs then vs else nil
rows_or_none v = nil

-- `read_json_artifact`, of the document in a file: one that does not fit the limit is read as `None`.
unfoldable pub read_json_artifact : (Value → Bool) → Value → Value
read_json_artifact fits v = if fits v then v else null

-- The `commits` of a chain, or the chain itself.
unfoldable pub chain_rows : Value → Items
unfolding rows_or_none
chain_rows (obj d) = rows_or_none (get d "commits")
chain_rows v = rows_or_none v

-- `accepted_chain_records`
unfoldable pub accepted_chain_records : (Value → Bool) → Value → Items
unfolding chain_rows read_json_artifact
accepted_chain_records fits v = chain_rows (read_json_artifact fits v)

-- `isinstance(item, dict) and item.get("commit_sha") == commit_sha`
unfoldable pub of_commit : String → Value → Bool
of_commit sha (obj d) = is_word sha (get d "commit_sha")
of_commit sha v = false

unfoldable pub others : String → Items → Items
unfolding of_commit
others sha nil = nil
others sha (cons v vs) = let rest = others sha vs in if of_commit sha v then rest else cons v rest

unfoldable pub with_last : Items → Value → Items
with_last nil v = cons v nil
with_last (cons w ws) v = cons w (with_last ws v)

-- The inner function `merged`, of a list.
unfoldable pub merged : String → Fields → Items → Items
unfolding others with_last
merged sha row vs = with_last (others sha vs) (obj row)

-- The payload of `step.json`: the one that is there, if it is a dictionary.
unfoldable pub step_payload : Committed → Value → Fields
step_payload c (obj d) = put (update d c.row) "verification_status" (str c.verification_status)
step_payload c v =
    put (update (field "id" (str c.step_id) end) c.row) "verification_status"
      (str c.verification_status)

-- The payload of `step_acceptance.json`.
unfoldable pub acceptance_payload : Committed → Fields
acceptance_payload c = field "schema_version" (int (pos 1)) (
    field "status" (str "accepted") (
      field "step_id" (str c.step_id) (
        field "commit_sha" (str c.commit_sha) (
          field "parent_sha" (str c.parent_sha) (
            field "tree_after" (str c.tree_after) (
              field "commit_gate_authority_sha256" (str c.authority_sha256)
                (field "effective_contract_sha256" (str c.contract_sha256) end)))))))

-- The keyword arguments of the last write.
unfoldable pub accepted_fields : Committed → Items → Items → Fields
accepted_fields c steps commits = field "accepted_steps" (arr steps) (
    field "accepted_commits" (arr commits) (
      field "expected_head_sha" (str c.commit_sha) (
        field "expected_parent_sha" (str c.parent_sha) (
          field "expected_tree_sha" (str c.tree_after)
            (field "next_step_id" (opt_str c.next_step) end)))))

unfoldable pub on_disk : {A : Type 0} → Effect StoreError Disk A → Effect AcceptError RunDir A
on_disk m r = (map_raised not_stored (m r.disk).0, record r { disk = (m r.disk).1 })

unfoldable pub write_step : Value → Effect AcceptError RunDir (Unit {0})
write_step v r = (ok tt, record r { step_record = v })

unfoldable pub write_chain : Value → Effect AcceptError RunDir (Unit {0})
write_chain v r = (ok tt, record r { accepted_chain = v })

unfoldable pub write_acceptance : Value → Effect AcceptError RunDir (Unit {0})
write_acceptance v r = (ok tt, record r { acceptance = v })

-- `_finalize_accepted_step`; `fits` says that a document is within the 16 MiB that are read.
unfoldable pub finalize_accepted_step :
    (Value → Bool) → String → Committed → Effect AcceptError RunDir (Unit {0})
unfolding write_step write_chain write_acceptance on_disk read_json_artifact accepted_chain_records
    merged listed step_payload acceptance_payload accepted_fields
finalize_accepted_step fits now c = do
  step ← reading (λ r. ok (read_json_artifact fits r.step_record))
  write_step (obj (step_payload c step))
  state ← reading (λ r. map_raised not_stored (load r.disk.state_file))
  chain ←
      reading (λ r. ok (merged c.commit_sha c.row (accepted_chain_records fits r.accepted_chain)))
  write_chain (obj (field "commits" (arr chain) end))
  write_acceptance (obj (acceptance_payload c))
  steps ← giving (listed (get state "accepted_steps"))
  commits ← giving (listed (get state "accepted_commits"))
  written ← on_disk (
      update_metadata now none
        (accepted_fields c (merged c.commit_sha c.row steps) (merged c.commit_sha c.row commits)))
  giving (ok tt)
