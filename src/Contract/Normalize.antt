-- ===== src/Contract/Normalize.antt =====
-- planning/normalization.py: `normalize_step_contract`.
use meta_harness.Common.{
  String, Bool, false, not, ◌&&◌, ◌||◌, Option, none, some, List, [], ◌∷◌, ◌++◌, ◌==◌,
  if◌then◌else◌,
}
use meta_harness.Common.Text.{has_prefix, strip}
use meta_harness.Common.Names.{mem}
use meta_harness.Contract.Step.{
  Entry, NormalizationCode, create_existing_to_write, drop_missing_delete,
  resolve_mutation_conflict, write_missing_to_create, ContractNormalization, TreeFacts, exists,
}

abbrev pub normalized_read_anchor : String
normalized_read_anchor = "current content"

abbrev drop_four : String → String
drop_four (String.◌∷◌ a (String.◌∷◌ b (String.◌∷◌ c (String.◌∷◌ d s)))) = s
drop_four s = String.[]

-- `entry.partition(" :: ")`: the text before the first separator, and the text after it.
unfoldable pub partition : String → String × String
unfolding has_prefix
partition String.[] = (String.[], String.[])
partition (String.◌∷◌ c s) =
    let (head, tail) = partition s in
    if has_prefix (String.◌∷◌ c s) " :: "
    then (String.[], drop_four (String.◌∷◌ c s))
    else (String.◌∷◌ c head, tail)

abbrev or_anchor : String → String
or_anchor String.[] = normalized_read_anchor
or_anchor s = s

unfoldable pub has_path : String → List Entry → Bool
has_path p [] = false
has_path p (e ∷ es) = (p == e.path) || has_path p es

-- `_read_entries`, after the entries that were read before
unfoldable pub read_entries : List Entry → List String → List Entry
unfolding partition has_path
read_entries seen [] = seen
read_entries seen (entry ∷ entries) =
    let (head, tail) = partition entry in
    let path = strip head in
    let kept = read_entries seen entries in
    let longer =
      read_entries (seen ++ record { path = path; anchor = or_anchor (strip tail) } ∷ []) entries in
    if (path == "") || has_path path seen then kept else longer

-- The three lists of mutations, and the records so far.
pub record Mutations : Type 0 where
  pub write : List String
  pub create : List String
  pub delete : List String
  pub records : List ContractNormalization

-- `xs.remove(x)`, of an `x` that is there
unfoldable pub remove : String → List String → List String
remove x [] = []
remove x (y ∷ ys) = let rest = remove x ys in if x == y then ys else y ∷ rest

abbrev pub noted :
    String
    → NormalizationCode
    → String
    → Option String
    → List ContractNormalization
    → List ContractNormalization
noted id code path detail records =
    records ++ record { code = code; step_id = id; path = path; detail = detail } ∷ []

-- One path, one canonical mutation: the owners after the first one lose it.
unfoldable pub resolve_path : String → String → Mutations → Mutations
unfolding mem remove
resolve_path id path m =
    if mem path m.write && (mem path m.create || mem path m.delete)
    then record m {
      create = remove path m.create;
      delete = remove path m.delete;
      records = noted id resolve_mutation_conflict path (some "kept=write") m.records;
    }
    else if not (mem path m.write) && (mem path m.create && mem path m.delete)
    then record m {
      delete = remove path m.delete;
      records = noted id resolve_mutation_conflict path (some "kept=create") m.records;
    }
    else m

unfoldable pub resolve_paths : String → List String → Mutations → Mutations
unfolding resolve_path
resolve_paths id [] m = m
resolve_paths id (p ∷ ps) m = resolve_paths id ps (resolve_path id p m)

module _ (facts : TreeFacts) (id : String) where
  -- The bodies of the three loops over existence.
  unfoldable pub place_write : String → Mutations → Mutations
  unfolding remove
  place_write p m = if exists facts p then m else record m {
    write = remove p m.write;
    create = m.create ++ p ∷ [];
    records = noted id write_missing_to_create p none m.records;
  }

  unfoldable pub place_create : String → Mutations → Mutations
  unfolding remove
  place_create p m =
      if exists facts p
      then record m {
        create = remove p m.create;
        write = m.write ++ p ∷ [];
        records = noted id create_existing_to_write p none m.records;
      }
      else m

  unfoldable pub place_delete : String → Mutations → Mutations
  unfolding remove
  place_delete p m = if exists facts p then m else record m {
    delete = remove p m.delete;
    records = noted id drop_missing_delete p none m.records;
  }

  unfoldable pub write_to_create : List String → Mutations → Mutations
  unfolding place_write
  write_to_create [] m = m
  write_to_create (p ∷ ps) m = write_to_create ps (place_write p m)

  unfoldable pub create_to_write : List String → Mutations → Mutations
  unfolding place_create
  create_to_write [] m = m
  create_to_write (p ∷ ps) m = create_to_write ps (place_create p m)

  unfoldable pub drop_deletes : List String → Mutations → Mutations
  unfolding place_delete
  drop_deletes [] m = m
  drop_deletes (p ∷ ps) m = drop_deletes ps (place_delete p m)

  -- Existence decides, of the three lists as each loop finds them.
  unfoldable pub decide : Mutations → Mutations
  unfolding write_to_create create_to_write drop_deletes
  decide m =
      let a = write_to_create m.write m in
      let b = create_to_write a.create a in drop_deletes b.delete b
