-- ===== src/Samples/ContractRuns.antt =====
-- A step whose paths are declared in the wrong lists.
use meta_harness.Common.{◌≡◌, refl, true, ◌||◌, none, [], ◌∷◌, ◌++◌, map, ◌==◌}
use meta_harness.Common.Text.{has_prefix, strip, is_space, lstrip, rstrip}
use meta_harness.Common.Names.{mem}
use meta_harness.Contract.Step.{
  entry_text, ImplementationStep, mechanical, TreeFacts, fact_of, exists, overlaid, after,
}
use meta_harness.Contract.Normalize.{
  partition, has_path, read_entries, remove, resolve_path, resolve_paths, place_write, place_create,
  place_delete, write_to_create, create_to_write, drop_deletes, decide,
}
use meta_harness.Contract.Readable.{every_read, readable, normalize_step_contract-reads}
use meta_harness.Contract.Effective.{
  drop_read, remove_entry, add_reads, drop_reads, settle_reads, declared_mutations,
  canonical_mutations, effective_mutations, effective_reads, normalize_step_contract,
}
use meta_harness.Contract.Coherence.{keep, every, missing, normalize_step_contract-agrees}

-- The tree holds `a` and `b`.
abbrev tree : TreeFacts
tree = record { look_up = λ path. (path == "a") || (path == "b"); overlay = [] }

abbrev declared : ImplementationStep
declared = record {
  id = "S1";
  title = "";
  execution_class = mechanical;
  depends_on = none;
  context = "";
  read_set = "a :: top" ∷ "gone :: x" ∷ [];
  write_set = "a" ∷ "new" ∷ [];
  create_set = "b" ∷ "a" ∷ [];
  delete_set = "gone" ∷ [];
  instructions = "";
  interfaces = "";
  examples = "";
  tests = "";
  pitfalls = "";
  done_when = "";
  verify = "";
}

-- Opens the normalization and all that it calls.
whole_contract : Unit {0}
unfolding drop_read every_read readable has_prefix strip is_space lstrip rstrip mem fact_of exists
    overlaid after partition has_path read_entries remove resolve_path resolve_paths place_write
    place_create place_delete write_to_create create_to_write drop_deletes decide remove_entry
    add_reads drop_reads settle_reads declared_mutations canonical_mutations effective_mutations
    effective_reads normalize_step_contract keep every
whole_contract = tt

effective_step_test : (normalize_step_contract declared tree).step ≡ record declared {
  read_set = "a :: top" ∷ "b :: current content" ∷ [];
  write_set = "a" ∷ "b" ∷ [];
  create_set = "new" ∷ [];
  delete_set = [];
}
unfolding whole_contract
effective_step_test = refl

no_contradiction_test : (normalize_step_contract declared tree).contradictions ≡ []
unfolding whole_contract
no_contradiction_test = refl

-- What the step is authorized to produce.
after_test : exists (after tree (normalize_step_contract declared tree).step) "new" ≡ true
unfolding whole_contract
after_test = refl

normalize_step_contract-agrees_example :
    (every (exists tree) ("a" ∷ "b" ∷ []) ≡ true)
    × (every (missing tree) ("new" ∷ []) ≡ true)
    × (every (exists tree) [] ≡ true)
    × ("a" ∷ "b" ∷ []
        ≡ keep (exists tree) ("a" ∷ "new" ∷ [])
          ++ keep (exists tree) (("b" ∷ []) ++ keep (missing tree) ("a" ∷ "new" ∷ [])))
    × ("new" ∷ [] ≡ keep (missing tree) (("b" ∷ []) ++ keep (missing tree) ("a" ∷ "new" ∷ [])))
    × ([] ≡ keep (exists tree) ("gone" ∷ []))
unfolding whole_contract
normalize_step_contract-agrees_example = normalize_step_contract-agrees declared tree

normalize_step_contract-reads_example :
    (let reads = (effective_reads declared tree).entries in
      ("a :: top" ∷ "b :: current content" ∷ [] ≡ map entry_text reads)
      × (every_read (readable tree ("new" ∷ [])) reads ≡ true))
unfolding whole_contract
normalize_step_contract-reads_example = normalize_step_contract-reads declared tree
