-- ===== src/Contract/Step.antt =====
-- planning/normalization.py: the step of a plan, and the facts of the tree that it starts from.
use Prim.Native.String.{◌++◌}
use meta_harness.Common.{String, Bool, true, false, Option, List, [], ◌∷◌, ◌==◌, if◌then◌else◌}

pub data ExecutionClass : Type 0 where
  mechanical reasoning agentic : ExecutionClass

pub record ImplementationStep : Type 0 where
  pub id : String
  pub title : String
  pub execution_class : ExecutionClass
  pub depends_on : Option String
  pub context : String
  pub read_set : List String
  pub write_set : List String
  pub create_set : List String
  pub delete_set : List String
  pub instructions : String
  pub interfaces : String
  pub examples : String
  pub tests : String
  pub pitfalls : String
  pub done_when : String
  pub verify : String

-- The codes that this module records.
pub data NormalizationCode : Type 0 where
  add_mutation_to_read create_existing_to_write drop_missing_delete drop_missing_read
        drop_read_of_create no_mutation_remains resolve_mutation_conflict write_missing_to_create :
      NormalizationCode

-- A record of this module names its step and its path.
pub record ContractNormalization : Type 0 where
  pub code : NormalizationCode
  pub step_id : String
  pub path : String
  pub detail : Option String

-- One `path: exists` of the overlay; the last one that was set comes first.
pub record Fact : Type 0 where
  pub at : String
  pub present : Bool

pub record TreeFacts : Type 0 where
  pub look_up : String → Bool
  pub overlay : List Fact

-- `overlay[path]` if it is there, and else the lookup
unfoldable pub fact_of : List Fact → String → Bool → Bool
fact_of [] path default = default
fact_of (f ∷ fs) path default =
    let rest = fact_of fs path default in if path == f.at then f.present else rest

-- `TreeFacts.exists`
unfoldable pub exists : TreeFacts → String → Bool
unfolding fact_of
exists facts path = fact_of facts.overlay path (facts.look_up path)

unfoldable pub overlaid : Bool → List String → List Fact → List Fact
overlaid b [] fs = fs
overlaid b (p ∷ ps) fs = overlaid b ps (record { at = p; present = b } ∷ fs)

-- `TreeFacts.after`
unfoldable pub after : TreeFacts → ImplementationStep → TreeFacts
unfolding overlaid
after facts step = record facts {
  overlay =
      overlaid false step.delete_set
        (overlaid true step.create_set (overlaid true step.write_set facts.overlay));
}

-- A path of READ_SET and its anchor: the ordered paths and the table of anchors in one.
pub record Entry : Type 0 where
  pub path : String
  pub anchor : String

-- `f"{path} :: {anchors[path]}"`
abbrev pub entry_text : Entry → String
entry_text e = e.path ++ (" :: " ++ e.anchor)
