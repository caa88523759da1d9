-- ===== src/Steps/Merged.antt =====
-- orchestration/step_execution.py: the inner function `merged` of `_finalize_accepted_step`, and the chain
-- file that it is written to.
use meta_harness.Common.{
  String, ◌≡◌, refl, ap, ◌∙◌, Bool, true, false, eq_refl, Bool-cases, inl, inr,
}
use meta_harness.Json.{Value, str, obj, arr, Fields, end, field, Items, nil, cons, get}
use meta_harness.Steps.Finalize.{
  read_json_artifact, accepted_chain_records, all_objects, rows_or_none, chain_rows, of_commit,
  others, with_last, merged,
}

pub others_idem : (sha : String) (vs : Items) → others sha (others sha vs) ≡ others sha vs
unfolding others
others_idem sha nil = refl
others_idem sha (cons v vs) = elim (Bool-cases (of_commit sha v)) [
  | inl e ↦ rw e (others_idem sha vs)
  | inr e ↦ rw (e, e) (ap (cons v) (others_idem sha vs))
]

others-with_last :
    (sha : String) (vs : Items) (v : Value)
    → of_commit sha v ≡ true
    → others sha (with_last vs v) ≡ others sha vs
unfolding others with_last
others-with_last sha nil v e = rw e
others-with_last sha (cons w vs) v e = rw (others-with_last sha vs v e) refl

of_commit-row :
    (sha : String) (row : Fields) → get row "commit_sha" ≡ str sha → of_commit sha (obj row) ≡ true
unfolding of_commit
of_commit-row sha row e = rw (e, eq_refl sha)

pub merged_idem :
    (sha : String) (row : Fields) (vs : Items)
    → get row "commit_sha" ≡ str sha
    → merged sha row (merged sha row vs) ≡ merged sha row vs
unfolding merged
merged_idem sha row vs e =
    ap (λ x. with_last x (obj row))
      (others-with_last sha (others sha vs) (obj row) (of_commit-row sha row e)
        ∙ others_idem sha vs)

all_objects-others :
    (sha : String) (vs : Items) → all_objects vs ≡ true → all_objects (others sha vs) ≡ true
unfolding all_objects others
all_objects-others sha nil h = refl
all_objects-others sha (cons (obj d) vs) h = elim (Bool-cases (of_commit sha (obj d))) [
  | inl e ↦ rw e (all_objects-others sha vs h)
  | inr e ↦ rw e (all_objects-others sha vs h)
]
all_objects-others sha (cons v vs) h = cc

all_objects-with_last :
    (vs : Items) (row : Fields)
    → all_objects vs ≡ true
    → all_objects (with_last vs (obj row)) ≡ true
unfolding all_objects with_last
all_objects-with_last nil row h = refl
all_objects-with_last (cons (obj d) vs) row h = all_objects-with_last vs row h
all_objects-with_last (cons v vs) row h = cc

all_objects-rows_or_none : (v : Value) → all_objects (rows_or_none v) ≡ true
unfolding all_objects rows_or_none
all_objects-rows_or_none (arr vs) = elim (Bool-cases (all_objects vs)) [
  | inl e ↦ rw (e, e) refl
  | inr e ↦ rw e refl
]
all_objects-rows_or_none v = refl

all_objects-chain : (v : Value) → all_objects (chain_rows v) ≡ true
unfolding chain_rows
all_objects-chain (obj d) = all_objects-rows_or_none (get d "commits")
all_objects-chain v = all_objects-rows_or_none v

-- The chain that was written is the one that is read, if it fits the limit.
pub chain_read_back :
    (fits : Value → Bool) (v written : Value) (sha : String) (row : Fields)
    → written ≡ obj (field "commits" (arr (merged sha row (accepted_chain_records fits v))) end)
    → fits written ≡ true
    → accepted_chain_records fits written ≡ merged sha row (accepted_chain_records fits v)
unfolding accepted_chain_records read_json_artifact chain_rows rows_or_none get merged
chain_read_back fits v written sha row e fit =
    let rest = others sha (accepted_chain_records fits v) in
    let whole : all_objects (with_last rest (obj row)) ≡ true = all_objects-with_last rest row (
      all_objects-others sha (accepted_chain_records fits v)
        (all_objects-chain (read_json_artifact fits v))) in
    rw fit (ap chain_rows e ∙ rw whole refl)

-- A chain that does not fit is read as an empty one.
pub chain_unread :
    (fits : Value → Bool) (v : Value) → fits v ≡ false → accepted_chain_records fits v ≡ nil
unfolding accepted_chain_records read_json_artifact chain_rows rows_or_none
chain_unread fits v large = rw large refl
