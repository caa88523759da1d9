-- ===== src/Contract/Readable.antt =====
-- The reads of a normalized step.
use meta_harness.Common.{
  String, ◌≡◌, refl, sym, ap, ◌∙◌, Bool, true, false, not, ◌&&◌, List, [], ◌∷◌, ◌++◌, map, ◌==◌,
  eq_iff, eq_refl, Bool-cases, inl, inr,
}
use meta_harness.Common.Text.Affix.{and-left, and-right}
use meta_harness.Common.Names.{mem}
use meta_harness.Contract.Step.{Entry, entry_text, ImplementationStep, TreeFacts, exists}
use meta_harness.Contract.Normalize.{read_entries}
use meta_harness.Contract.Effective.{
  Reads, remove_entry, add_reads, drop_read, drop_reads, settle_reads, effective_mutations,
  effective_reads, normalize_step_contract,
}

unfoldable pub every_read : (String → Bool) → List Entry → Bool
every_read test [] = true
every_read test (e ∷ es) = test e.path && every_read test es

-- A path that exists and is not created.
unfoldable pub readable : TreeFacts → List String → String → Bool
readable facts created p = not (mem p created) && exists facts p

every_read-append :
    (test : String → Bool) (xs ys : List Entry)
    → every_read test xs ≡ true
    → every_read test ys ≡ true
    → every_read test (xs ++ ys) ≡ true
unfolding every_read
every_read-append test [] ys h k = k
every_read-append test (x ∷ xs) ys h k = elim (Bool-cases (test x.path)) [
  | inl e ↦ rw e (every_read-append test xs ys (rw e at h) k)
  | inr e ↦ cc
]

entries_assoc : (xs ys zs : List Entry) → (xs ++ ys) ++ zs ≡ xs ++ (ys ++ zs)
entries_assoc [] ys zs = refl
entries_assoc (x ∷ xs) ys zs = ap (◌∷◌ x) (entries_assoc xs ys zs)

entries_nil : (xs : List Entry) → xs ++ [] ≡ xs
entries_nil [] = refl
entries_nil (x ∷ xs) = ap (◌∷◌ x) (entries_nil xs)

remove_entry-first :
    (test : String → Bool) (done : List Entry) (e : Entry) (rest : List Entry)
    → every_read test done ≡ true
    → test e.path ≡ false
    → remove_entry e.path (done ++ e ∷ rest) ≡ done ++ rest
unfolding remove_entry every_read
remove_entry-first test [] e rest h bad = rw (eq_refl e.path) refl
remove_entry-first test (x ∷ xs) e rest h bad = elim (Bool-cases (e.path == x.path)) [
  | inl q ↦ let same = (eq_iff e.path x.path).0 q in let good = and-left (test x.path) _ h in cc
  | inr q ↦ rw q (ap (◌∷◌ x) (remove_entry-first test xs e rest (and-right (test x.path) _ h) bad))
]

module _ (facts : TreeFacts) (id : String) (created : List String) where
  drop_read_stays :
      (e : Entry) (r : Reads)
      → readable facts created e.path ≡ true
      → drop_read facts id created e r ≡ r
  unfolding readable drop_read
  drop_read_stays e r b = elim (Bool-cases (mem e.path created)) [
    | inl c ↦ cc
    | inr c ↦ rw (c, and-right (not (mem e.path created)) _ b) refl
  ]

  drop_read_gone :
      (e : Entry) (r : Reads)
      → readable facts created e.path ≡ false
      → (drop_read facts id created e r).entries ≡ remove_entry e.path r.entries
  unfolding readable drop_read
  drop_read_gone e r b = elim (Bool-cases (mem e.path created)) [
    | inl c ↦ rw c refl
    | inr c ↦ elim (Bool-cases (exists facts e.path)) [ inl d ↦ cc | inr d ↦ rw (c, d) refl ]
  ]

  drop_loop :
      (done es : List Entry) (r : Reads)
      → r.entries ≡ done ++ es
      → every_read (readable facts created) done ≡ true
      → every_read (readable facts created) (drop_reads facts id created es r).entries ≡ true
  unfolding drop_reads every_read
  drop_loop done [] r e good = rw (e, entries_nil done) good
  drop_loop done (x ∷ es) r e good = elim (Bool-cases (readable facts created x.path)) [
    | inl b ↦
        let more = every_read-append (readable facts created) done (x ∷ []) good (rw b refl) in
        let stays = drop_read_stays x r b in
        drop_loop (done ++ x ∷ []) es (drop_read facts id created x r)
          (ap (λ q. q.entries) stays ∙ (e ∙ sym (entries_assoc done (x ∷ []) es))) more
    | inr b ↦
        let left =
          ap (remove_entry x.path) e
          ∙ remove_entry-first (readable facts created) done x es good b in
        drop_loop done es (drop_read facts id created x r) (drop_read_gone x r b ∙ left) good
  ]

-- Every path that a normalized step reads exists in the tree that it starts from, and is not one
-- that it creates.
pub normalize_step_contract-reads :
    (step : ImplementationStep) (facts : TreeFacts)
    → (let after = (normalize_step_contract step facts).step in
        let reads = (effective_reads step facts).entries in
        (after.read_set ≡ map entry_text reads)
        × (every_read (readable facts after.create_set) reads ≡ true))
unfolding normalize_step_contract effective_reads settle_reads every_read
normalize_step_contract-reads step facts =
    let m = effective_mutations step facts in
    let added =
      add_reads facts step.id (m.write ++ m.delete)
        (record { entries = read_entries [] step.read_set; notes = m.records }) in
    (refl, drop_loop facts step.id m.create [] added.entries added refl refl)
