-- ===== src/Commit/Settled.antt =====
-- commit_gate.py: the result of `assert_deferred_verifications_resolved`.
use meta_harness.Common.{
  String, ◌≡◌, refl, ap, ◌∙◌, Bool, true, false, List, [], ◌∷◌, ◌⊎◌, inl, inr, eq_iff, eq_refl,
  Bool-cases,
}
use meta_harness.Common.Outcome.{ok, bind-ok, ok-injective}
use meta_harness.Json.{Value, str, obj, arr, Fields, Items, nil, cons, get}
use meta_harness.Commit.Record.{
  same_scalar, hashable, is_word, rows_of, has_status, passed_ids, value_in, any_missing,
  is_unresolved, add_if, unresolved_rows, unresolved_deferred_verifications, none_left,
  assert_deferred_verifications_resolved,
}

abbrev pub In : {A : Type 0} → A → List A → Type 0
In x [] = ⊥
In x (y ∷ ys) = (x ≡ y) ⊎ In x ys

-- A record of a passed step with this step id is among the records.
abbrev pub HasPassed : List Value → Value → Type 0
HasPassed records v =
    (p : Fields) × In (obj p) records
    × (get p "verification_status" ≡ str "passed")
    × (same_scalar v (get p "step_id") ≡ true)

abbrev pub AllItems : (Value → Type 0) → Items → Type 0
AllItems P nil = Unit
AllItems P (cons v vs) = P v × AllItems P vs

-- The dependencies of a record are a list, and a step with the id of each of them has passed.
abbrev pub IsSettled : List Value → Fields → Type 0
IsSettled records row =
    (vs : Items) × (get row "dependent_step_ids" ≡ arr vs) × AllItems (HasPassed records) vs

is_word-eq : (w : String) (v : Value) → is_word w v ≡ true → v ≡ str w
is_word-eq w (str s) h = ap str ((eq_iff s w).0 h)
is_word-eq w v h = cc

rows_of-In : (records : List Value) (p : Fields) → In p (rows_of records) → In (obj p) records
unfolding rows_of
rows_of-In [] p h = h
rows_of-In (obj d ∷ vs) p (inl e) = inl (ap obj e)
rows_of-In (obj d ∷ vs) p (inr h) = inr (rows_of-In vs p h)
rows_of-In (v ∷ vs) p h = inr (rows_of-In vs p h)

In-rows_of : (records : List Value) (p : Fields) → In (obj p) records → In p (rows_of records)
unfolding rows_of
In-rows_of [] p h = h
In-rows_of (obj d ∷ vs) p (inl e) = inl (cc)
In-rows_of (obj d ∷ vs) p (inr h) = inr (In-rows_of vs p h)
In-rows_of (v ∷ vs) p (inl e) = cc
In-rows_of (v ∷ vs) p (inr h) = In-rows_of vs p h

abbrev Passed : Value → List Fields → Type 0
Passed v rows =
    (p : Fields) × In p rows
    × (get p "verification_status" ≡ str "passed")
    × (same_scalar v (get p "step_id") ≡ true)

value_in-Passed :
    (row : Fields) (rows : List Fields) (v : Value) (more : List Value)
    → get row "verification_status" ≡ str "passed"
    → (value_in v more ≡ true → Passed v rows)
    → value_in v (get row "step_id" ∷ more) ≡ true
    → Passed v (row ∷ rows)
unfolding value_in
value_in-Passed row rows v more passed later k =
    elim (Bool-cases (same_scalar v (get row "step_id"))) [
      | inl e ↦ (row, inl refl, passed, e)
      | inr e ↦ let (p, member, rest, same) = later (rw e at k) in (p, inr member, rest, same)
    ]

-- An id of the set comes from a row that has passed.
passed_ids-row :
    (rows : List Fields) (v : Value) {ids : List Value}
    → passed_ids rows ≡ ok ids
    → value_in v ids ≡ true
    → Passed v rows
unfolding passed_ids value_in
passed_ids-row [] v h k = cc
passed_ids-row (row ∷ rows) v {ids} h k = elim (Bool-cases (has_status "passed" row)) [
  | inr e ↦
      let (p, member, passed, same) = passed_ids-row rows v (rw e at h) k in
      (p, inr member, passed, same)
  | inl e ↦
      let (u, p1, k1) = bind-ok (hashable (get row "step_id")) _ (rw e at h) in
      let (more, p2, k2) = bind-ok (passed_ids rows) _ k1 in
      value_in-Passed row rows v more (is_word-eq "passed" (get row "verification_status") e)
        (λ found. passed_ids-row rows v p2 found) (rw (← ok-injective k2) at k)
]

any_missing-All :
    (vs : Items) (ids : List Value)
    → any_missing vs ids ≡ ok false
    → AllItems (λ v. value_in v ids ≡ true) vs
unfolding any_missing
any_missing-All nil ids h = tt
any_missing-All (cons v vs) ids h =
    let (u, p, k) = bind-ok (hashable v) _ h in
    elim (Bool-cases (value_in v ids)) [
      | inl e ↦ (e, any_missing-All vs ids (rw e at k))
      | inr e ↦ cc (rw e at k)
    ]

unresolved_rows-row :
    (rows : List Fields) (ids : List Value) (row : Fields)
    → In row rows
    → has_status "deferred" row ≡ true
    → unresolved_rows rows ids ≡ ok []
    → is_unresolved (get row "dependent_step_ids") ids ≡ ok false
unfolding unresolved_rows
unresolved_rows-row [] ids row m d h = absurd m
unresolved_rows-row (r ∷ rows) ids row m d h = elim (Bool-cases (has_status "deferred" r)) [
  | inr e ↦ elim m [
    | inl same ↦ cc (rw same at d)
    | inr later ↦ unresolved_rows-row rows ids row later d (rw e at h)
  ]
  | inl e ↦
      let (b, p1, k1) = bind-ok (is_unresolved (get r "dependent_step_ids") ids) _ (rw e at h) in
      let (more, p2, k2) = bind-ok (unresolved_rows rows ids) _ k1 in
      let (settled, nothing) = added-nil b r more (ok-injective k2) in
      elim m [
        | inl same ↦ rw same (p1 ∙ ap ok settled)
        | inr later ↦ unresolved_rows-row rows ids row later d (p2 ∙ ap ok nothing)
      ]
]
  where
    added-nil :
        (b : Bool) (row : Fields) (rows : List Fields)
        → add_if b row rows ≡ []
        → (b ≡ false) × (rows ≡ [])
    added-nil true row rows h = cc
    added-nil false row rows h = (refl, h)

none_left-eq : (rows : List Fields) → none_left rows ≡ ok tt → rows ≡ []
none_left-eq [] h = refl
none_left-eq (row ∷ rows) h = cc

All-HasPassed :
    (records : List Value) (ids : List Value) (vs : Items)
    → passed_ids (rows_of records) ≡ ok ids
    → AllItems (λ v. value_in v ids ≡ true) vs
    → AllItems (HasPassed records) vs
All-HasPassed records ids nil p h = tt
All-HasPassed records ids (cons v vs) p (h, hs) =
    let (row, member, passed, same) = passed_ids-row (rows_of records) v p h in
    ((row, rows_of-In records row member, passed, same), All-HasPassed records ids vs p hs)

-- When `assert_deferred_verifications_resolved` returns, every record of a deferred verification among
-- the records is settled: its dependencies are a list, and for each of them a step of that id has passed.
pub assert_deferred_verifications_resolved-IsSettled :
    (records : List Value) (row : Fields)
    → In (obj row) records
    → get row "verification_status" ≡ str "deferred"
    → assert_deferred_verifications_resolved records ≡ ok tt
    → IsSettled records row
unfolding assert_deferred_verifications_resolved unresolved_deferred_verifications is_unresolved
assert_deferred_verifications_resolved-IsSettled records row member deferred h =
    let (left, p1, k1) = bind-ok (unresolved_deferred_verifications records) _ h in
    let (ids, p2, k2) = bind-ok (passed_ids (rows_of records)) _ p1 in
    settled (get row "dependent_step_ids") refl ids p2 (
      unresolved_rows-row (rows_of records) ids row (In-rows_of records row member)
        (rw (deferred, eq_refl "deferred")) (k2 ∙ ap ok (none_left-eq left k1)))
  where
    settled :
        (v : Value)
        → get row "dependent_step_ids" ≡ v
        → (ids : List Value) → passed_ids (rows_of records) ≡ ok ids
        → is_unresolved v ids ≡ ok false
        → IsSettled records row
    settled (arr vs) e ids p k = (vs, e, All-HasPassed records ids vs p (any_missing-All vs ids k))
    settled v e ids p k = cc
