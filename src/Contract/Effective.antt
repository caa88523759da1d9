-- ===== src/Contract/Effective.antt =====
-- planning/normalization.py: the reads of a normalized step, and the whole of
-- `normalize_step_contract`.
use meta_harness.Common.{String, not, ◌&&◌, none, List, [], ◌∷◌, ◌++◌, map, ◌==◌, if◌then◌else◌}
use meta_harness.Common.Names.{mem, is_nil}
use meta_harness.Contract.Step.{
  Entry, entry_text, ImplementationStep, NormalizationCode, add_mutation_to_read, drop_missing_read,
  drop_read_of_create, no_mutation_remains, ContractNormalization, TreeFacts, exists,
}
use meta_harness.Contract.Normalize.{
  normalized_read_anchor, has_path, read_entries, Mutations, noted, resolve_paths, decide,
}

pub record Reads : Type 0 where
  pub entries : List Entry
  pub notes : List ContractNormalization

-- `read.remove(path)`
unfoldable pub remove_entry : String → List Entry → List Entry
remove_entry p [] = []
remove_entry p (e ∷ es) = let rest = remove_entry p es in if p == e.path then es else e ∷ rest

module _ (facts : TreeFacts) (id : String) where
  -- Every mutation of an existing path is readable.
  unfoldable pub add_reads : List String → Reads → Reads
  unfolding has_path
  add_reads [] r = r
  add_reads (p ∷ ps) r = add_reads ps (
      if has_path p r.entries then r else record {
        entries = r.entries ++ record { path = p; anchor = normalized_read_anchor } ∷ [];
        notes = noted id add_mutation_to_read p none r.notes;
      })

  unfoldable pub drop_read : List String → Entry → Reads → Reads
  unfolding mem remove_entry
  drop_read created e r =
      if mem e.path created
      then record {
        entries = remove_entry e.path r.entries;
        notes = noted id drop_read_of_create e.path none r.notes;
      }
      else if not (exists facts e.path)
      then record {
        entries = remove_entry e.path r.entries;
        notes = noted id drop_missing_read e.path none r.notes;
      }
      else r

  -- No read survives of a created path or of one that is absent.
  unfoldable pub drop_reads : List String → List Entry → Reads → Reads
  unfolding drop_read
  drop_reads created [] r = r
  drop_reads created (e ∷ es) r = drop_reads created es (drop_read created e r)

  unfoldable pub settle_reads : Mutations → List Entry → Reads
  unfolding add_reads drop_reads
  settle_reads m entries =
      let added =
        add_reads (m.write ++ m.delete) (record { entries = entries; notes = m.records }) in
      drop_reads m.create added.entries added

pub record NormalizedStepContract : Type 0 where
  pub step : ImplementationStep
  pub normalizations : List ContractNormalization
  pub contradictions : List NormalizationCode

unfoldable pub declared_mutations : ImplementationStep → Mutations
declared_mutations step = record {
  write = step.write_set;
  create = step.create_set;
  delete = step.delete_set;
  records = [];
}

-- The mutations of the step, each path at its canonical one.
unfoldable pub canonical_mutations : ImplementationStep → Mutations
unfolding resolve_paths declared_mutations
canonical_mutations step =
    resolve_paths step.id (step.write_set ++ step.create_set ++ step.delete_set)
      (declared_mutations step)

unfoldable pub effective_mutations : ImplementationStep → TreeFacts → Mutations
unfolding decide
effective_mutations step facts = decide facts step.id (canonical_mutations step)

unfoldable pub effective_reads : ImplementationStep → TreeFacts → Reads
unfolding settle_reads read_entries
effective_reads step facts =
    settle_reads facts step.id (effective_mutations step facts) (read_entries [] step.read_set)

unfoldable pub normalize_step_contract : ImplementationStep → TreeFacts → NormalizedStepContract
normalize_step_contract step facts =
    let m = effective_mutations step facts in
    let r = effective_reads step facts in
    record {
      step = record step {
        read_set = map entry_text r.entries;
        write_set = m.write;
        create_set = m.create;
        delete_set = m.delete;
      };
      normalizations = r.notes;
      contradictions =
          if is_nil m.write && (is_nil m.create && is_nil m.delete)
          then no_mutation_remains ∷ []
          else [];
    }
