-- ===== src/Contract/Coherence.antt =====
-- The mutations of a normalized step agree with the tree that it starts from.
use mathlib.Core.Path.{ap₂}
use meta_harness.Common.{
  String, ◌≡◌, refl, sym, ap, ◌∙◌, Bool, true, false, not, ◌&&◌, List, [], ◌∷◌, ◌++◌, ◌==◌, none,
  eq_iff, eq_refl, if◌then◌else◌, Bool-cases, inl, inr,
}
use meta_harness.Common.Text.Affix.{and-left, and-right}
use meta_harness.Contract.Step.{
  write_missing_to_create, create_existing_to_write, drop_missing_delete, ImplementationStep,
  TreeFacts, exists,
}
use meta_harness.Contract.Normalize.{
  Mutations, remove, noted, place_write, place_create, place_delete, write_to_create,
  create_to_write, drop_deletes, decide,
}
use meta_harness.Contract.Effective.{
  canonical_mutations, effective_mutations, normalize_step_contract,
}

-- The members that pass a test, in order.
unfoldable pub keep : (String → Bool) → List String → List String
keep test [] = []
keep test (x ∷ xs) = let rest = keep test xs in if test x then x ∷ rest else rest

unfoldable pub every : (String → Bool) → List String → Bool
every test [] = true
every test (x ∷ xs) = test x && every test xs

append-nil : (xs : List String) → xs ++ [] ≡ xs
append-nil [] = refl
append-nil (x ∷ xs) = ap (◌∷◌ x) (append-nil xs)

append_assoc : (xs ys zs : List String) → (xs ++ ys) ++ zs ≡ xs ++ (ys ++ zs)
append_assoc [] ys zs = refl
append_assoc (x ∷ xs) ys zs = ap (◌∷◌ x) (append_assoc xs ys zs)

every-append :
    (test : String → Bool) (xs ys : List String)
    → every test xs ≡ true
    → every test ys ≡ true
    → every test (xs ++ ys) ≡ true
unfolding every
every-append test [] ys h k = k
every-append test (x ∷ xs) ys h k = elim (Bool-cases (test x)) [
  | inl e ↦ rw e (every-append test xs ys (rw e at h) k)
  | inr e ↦ cc
]

every-keep : (test : String → Bool) (xs : List String) → every test (keep test xs) ≡ true
unfolding every keep
every-keep test [] = refl
every-keep test (x ∷ xs) = elim (Bool-cases (test x)) [
  | inl e ↦ rw (e, e) (every-keep test xs)
  | inr e ↦ rw e (every-keep test xs)
]

-- A path that fails the test of all before it is the one that is removed.
remove-first :
    (test : String → Bool) (done : List String) (p : String) (rest : List String)
    → every test done ≡ true
    → test p ≡ false
    → remove p (done ++ p ∷ rest) ≡ done ++ rest
unfolding remove every
remove-first test [] p rest h bad = rw (eq_refl p) refl
remove-first test (x ∷ xs) p rest h bad = elim (Bool-cases (p == x)) [
  | inl e ↦ let same = (eq_iff p x).0 e in let good = and-left (test x) _ h in cc
  | inr e ↦ rw e (ap (◌∷◌ x) (remove-first test xs p rest (and-right (test x) _ h) bad))
]

abbrev pub missing : TreeFacts → String → Bool
missing facts p = not (exists facts p)

module _ (facts : TreeFacts) (id : String) where
  write_loop :
      (done ps : List String) (m : Mutations)
      → m.write ≡ done ++ ps
      → every (exists facts) done ≡ true
      → ((write_to_create facts id ps m).write ≡ done ++ keep (exists facts) ps)
        × ((write_to_create facts id ps m).create ≡ m.create ++ keep (missing facts) ps)
        × ((write_to_create facts id ps m).delete ≡ m.delete)
  unfolding write_to_create place_write keep every
  write_loop done [] m e good = (e, sym (append-nil m.create), refl)
  write_loop done (p ∷ ps) m e good = elim (Bool-cases (exists facts p)) [
    | inl b ↦
        let stays : place_write facts id p m ≡ m = rw b refl in
        let same = ap (write_to_create facts id ps) stays in
        let more = every-append (exists facts) done (p ∷ []) good (rw b refl) in
        let (w, c, d) =
          write_loop (done ++ p ∷ []) ps m (e ∙ sym (append_assoc done (p ∷ []) ps)) more in
        rw b (
          ap (λ r. r.write) same ∙ (w ∙ append_assoc done (p ∷ []) (keep (exists facts) ps)),
          ap (λ r. r.create) same ∙ c,
          ap (λ r. r.delete) same ∙ d,
        )
    | inr b ↦
        let moved : Mutations = record m {
          write = remove p m.write;
          create = m.create ++ p ∷ [];
          records = noted id write_missing_to_create p none m.records;
        } in
        let goes : place_write facts id p m ≡ moved = rw b refl in
        let same = ap (write_to_create facts id ps) goes in
        let left = ap (remove p) e ∙ remove-first (exists facts) done p ps good b in
        let (w, c, d) = write_loop done ps moved left good in
        rw b (
          ap (λ r. r.write) same ∙ w,
          ap (λ r. r.create) same ∙ (c ∙ append_assoc m.create (p ∷ []) (keep (missing facts) ps)),
          ap (λ r. r.delete) same ∙ d,
        )
  ]

  create_loop :
      (done ps : List String) (m : Mutations)
      → m.create ≡ done ++ ps
      → every (missing facts) done ≡ true
      → ((create_to_write facts id ps m).create ≡ done ++ keep (missing facts) ps)
        × ((create_to_write facts id ps m).write ≡ m.write ++ keep (exists facts) ps)
        × ((create_to_write facts id ps m).delete ≡ m.delete)
  unfolding create_to_write place_create keep every
  create_loop done [] m e good = (e, sym (append-nil m.write), refl)
  create_loop done (p ∷ ps) m e good = elim (Bool-cases (exists facts p)) [
    | inr b ↦
        let stays : place_create facts id p m ≡ m = rw b refl in
        let same = ap (create_to_write facts id ps) stays in
        let more = every-append (missing facts) done (p ∷ []) good (rw b refl) in
        let (c, w, d) =
          create_loop (done ++ p ∷ []) ps m (e ∙ sym (append_assoc done (p ∷ []) ps)) more in
        rw b (
          ap (λ r. r.create) same ∙ (c ∙ append_assoc done (p ∷ []) (keep (missing facts) ps)),
          ap (λ r. r.write) same ∙ w,
          ap (λ r. r.delete) same ∙ d,
        )
    | inl b ↦
        let moved : Mutations = record m {
          create = remove p m.create;
          write = m.write ++ p ∷ [];
          records = noted id create_existing_to_write p none m.records;
        } in
        let goes : place_create facts id p m ≡ moved = rw b refl in
        let same = ap (create_to_write facts id ps) goes in
        let left = ap (remove p) e ∙ remove-first (missing facts) done p ps good (rw b refl) in
        let (c, w, d) = create_loop done ps moved left good in
        rw b (
          ap (λ r. r.create) same ∙ c,
          ap (λ r. r.write) same ∙ (w ∙ append_assoc m.write (p ∷ []) (keep (exists facts) ps)),
          ap (λ r. r.delete) same ∙ d,
        )
  ]

  delete_loop :
      (done ps : List String) (m : Mutations)
      → m.delete ≡ done ++ ps
      → every (exists facts) done ≡ true
      → ((drop_deletes facts id ps m).delete ≡ done ++ keep (exists facts) ps)
        × ((drop_deletes facts id ps m).write ≡ m.write)
        × ((drop_deletes facts id ps m).create ≡ m.create)
  unfolding drop_deletes place_delete keep every
  delete_loop done [] m e good = (e, refl, refl)
  delete_loop done (p ∷ ps) m e good = elim (Bool-cases (exists facts p)) [
    | inl b ↦
        let stays : place_delete facts id p m ≡ m = rw b refl in
        let same = ap (drop_deletes facts id ps) stays in
        let more = every-append (exists facts) done (p ∷ []) good (rw b refl) in
        let (d, w, c) =
          delete_loop (done ++ p ∷ []) ps m (e ∙ sym (append_assoc done (p ∷ []) ps)) more in
        rw b (
          ap (λ r. r.delete) same ∙ (d ∙ append_assoc done (p ∷ []) (keep (exists facts) ps)),
          ap (λ r. r.write) same ∙ w,
          ap (λ r. r.create) same ∙ c,
        )
    | inr b ↦
        let moved : Mutations = record m {
          delete = remove p m.delete;
          records = noted id drop_missing_delete p none m.records;
        } in
        let goes : place_delete facts id p m ≡ moved = rw b refl in
        let same = ap (drop_deletes facts id ps) goes in
        let left = ap (remove p) e ∙ remove-first (exists facts) done p ps good b in
        let (d, w, c) = delete_loop done ps moved left good in
        rw b (ap (λ r. r.delete) same ∙ d, ap (λ r. r.write) same ∙ w, ap (λ r. r.create) same ∙ c)
  ]

  -- The three loops over existence, which change the lists that they walk, compute this: the writes
  -- that exist and then the creations that exist; of the creations, with the writes that are missing
  -- behind them, those that are missing; and the deletions that exist.
  decide-keep :
      (m : Mutations)
      → ((decide facts id m).write
          ≡ keep (exists facts) m.write
            ++ keep (exists facts) (m.create ++ keep (missing facts) m.write))
        × ((decide facts id m).create
            ≡ keep (missing facts) (m.create ++ keep (missing facts) m.write))
        × ((decide facts id m).delete ≡ keep (exists facts) m.delete)
  unfolding decide every
  decide-keep m =
      let (w, c, d) = write_loop [] m.write m refl refl in
      let a = write_to_create facts id m.write m in
      let (c', w', d') = create_loop [] a.create a refl refl in
      let b = create_to_write facts id a.create a in
      let (e, x, y) = delete_loop [] b.delete b refl refl in
      (
        x ∙ (w' ∙ ap₂ ◌++◌ w (ap (keep (exists facts)) c)),
        y ∙ (c' ∙ ap (keep (missing facts)) c),
        e ∙ ap (keep (exists facts)) (d' ∙ d),
      )

  decided_coherent :
      (m : Mutations)
      → (every (exists facts) (decide facts id m).write ≡ true)
        × (every (missing facts) (decide facts id m).create ≡ true)
        × (every (exists facts) (decide facts id m).delete ≡ true)
  decided_coherent m =
      let (w, c, d) = decide-keep m in
      let behind = m.create ++ keep (missing facts) m.write in
      (
        rw w (
            every-append (exists facts) (keep (exists facts) m.write) (keep (exists facts) behind)
              (every-keep (exists facts) m.write) (every-keep (exists facts) behind)),
        rw c (every-keep (missing facts) behind),
        rw d (every-keep (exists facts) m.delete),
      )

-- The mutations of a normalized step agree with the tree that it starts from: the paths that it
-- writes or deletes exist, and those that it creates do not. They are computed from the canonical
-- mutations: the writes that exist and then the creations that exist; of the creations, with the
-- missing writes behind them, those that are missing; and the deletions that exist.
pub normalize_step_contract-agrees :
    (step : ImplementationStep) (facts : TreeFacts)
    → (let after = (normalize_step_contract step facts).step in
        let m = canonical_mutations step in
        (every (exists facts) after.write_set ≡ true)
        × (every (missing facts) after.create_set ≡ true)
        × (every (exists facts) after.delete_set ≡ true)
        × (after.write_set
            ≡ keep (exists facts) m.write
              ++ keep (exists facts) (m.create ++ keep (missing facts) m.write))
        × (after.create_set ≡ keep (missing facts) (m.create ++ keep (missing facts) m.write))
        × (after.delete_set ≡ keep (exists facts) m.delete))
unfolding normalize_step_contract effective_mutations
normalize_step_contract-agrees step facts =
    let m = canonical_mutations step in
    let (w, c, d) = decided_coherent facts step.id m in
    let (w', c', d') = decide-keep facts step.id m in (w, c, d, w', c', d')
