-- ===== src/Coordinator/Counting.antt =====
-- What one consumption leaves in the durable counters.
use meta_harness.Common.{
  ℕ, suc, String, ◌≡◌, refl, sym, ap, ◌∙◌, true, false, Option, none, some, arith, ◌==◌,
  if◌then◌else◌, Bool-cases, inl, inr,
}
use meta_harness.Common.Outcome.{
  Outcome, ok, raised, map_raised, bind-ok, map_raised-eq-ok, ok-injective, Outcome-cases,
}
use meta_harness.Json.{Value, obj, arr, nil, Fields, Items, get, has_key}
use meta_harness.Json.Laws.{get-put, get-update_absent, has_key-update_absent, IsDict, has_key-put}
use meta_harness.Store.Disk.{Disk, StoreError, finish, load}
use meta_harness.Store.Writes.{update_metadata}
use meta_harness.Store.Written.{apply-inversion}
use meta_harness.Store.Inversion.{update_metadata-inversion, update_metadata-writes}
use meta_harness.Store.Fields.{written_field, load-write}
use meta_harness.Coordinator.Counters.{
  CoordinatorError, store_error, get_or, counter_value, counters_in, used, RecoveryAttempt,
  attempt_record, items_of, append_item, newest, count_of, with_counter, consumed_fields,
  consumption, store_result, consume,
}

-- A counter that was written is the one that is read, and the others stay.
counter-with_counter :
    (counters : Value) (key j : String) (n : ℕ) {m : ℕ}
    → counter_value counters key ≡ ok m
    → counter_value (with_counter counters key n) j
      ≡ (if key == j then ok n else counter_value counters j)
unfolding counter_value count_of
counter-with_counter (obj counters) key j n h = elim (Bool-cases (key == j)) [
  | inl e ↦ rw (get_or, has_key-put, get-put, e) refl
  | inr e ↦ rw (get_or, has_key-put, get-put, e) refl
]
counter-with_counter v key j n h = cc

store_result-ok :
    (n : ℕ) (p : Outcome StoreError (Option Fields) × Disk) {m : ℕ} {d' : Disk}
    → store_result n p ≡ (ok m, d')
    → (w : Option Fields) × (p ≡ (ok w, d')) × (n ≡ m)
store_result-ok n (ok w, d) h = (w, ground arith, ground arith)
store_result-ok n (raised e, d) h = ground arith

store_result-raised :
    (n : ℕ) (d : Disk) (o : Outcome StoreError (Option Fields)) {e : CoordinatorError} {d' : Disk}
    → store_result n (finish d o) ≡ (raised e, d')
    → d' ≡ d
unfolding finish
store_result-raised n d (ok none) h = ground arith
store_result-raised n d (ok (some st)) h = ground arith
store_result-raised n d (raised e) h = cc

-- The counters after a write that names them.
written_counters :
    (now : String) (fields : Fields) (d d' : Disk) (w : Option Fields) (key : String)
    → IsDict fields
    → has_key fields "recovery_counters" ≡ true
    → update_metadata now none fields d ≡ (ok w, d')
    → used key d' ≡ counter_value (get fields "recovery_counters") key
unfolding used counters_in get_or
written_counters now fields d d' w key unique has h =
    let (st, wrote) = update_metadata-writes now fields d d' w h in
    let (s, m, read, done, e) = update_metadata-inversion now fields d none wrote in
    let (value, there) =
      written_field s.state m fields now "recovery_counters" unique has refl done in
    rw (e, load-write d st, there, value) refl

-- A write that names no counters keeps them.
pub used-update_metadata :
    (now : String) (fields : Fields) (d d' : Disk) (w : Option Fields) (key : String)
    → has_key fields "recovery_counters" ≡ false
    → update_metadata now none fields d ≡ (ok w, d')
    → used key d' ≡ used key d
unfolding used counters_in get_or
used-update_metadata now fields d d' w key lacks h =
    let (st, wrote) = update_metadata-writes now fields d d' w h in
    let (s, m, read, done, e) = update_metadata-inversion now fields d none wrote in
    let (o, p, agrees, made) = apply-inversion s.state m fields now done in
    let kept : get st "recovery_counters" ≡ get s.state "recovery_counters" = rw (← made) (
      get-put _ "updated_at" "recovery_counters" _
      ∙ (get-update_absent _ fields "recovery_counters" lacks ∙ simp (get-put))) in
    let there : has_key st "recovery_counters" ≡ has_key s.state "recovery_counters" = rw (← made) (
      has_key-put _ "updated_at" "recovery_counters" _
      ∙ (has_key-update_absent _ fields "recovery_counters" lacks ∙ simp (has_key-put))) in
    rw (e, load-write d st, s.loaded, there, kept) refl

consumed_fields-IsDict : (c : Value) (xs : Items) → IsDict (consumed_fields c xs)
unfolding has_key
consumed_fields-IsDict c xs = (refl, (refl, tt))

has_key-consumed_fields :
    (c : Value) (xs : Items) → has_key (consumed_fields c xs) "recovery_counters" ≡ true
unfolding has_key
has_key-consumed_fields c xs = refl

get-consumed_fields : (c : Value) (xs : Items) → get (consumed_fields c xs) "recovery_counters" ≡ c
unfolding get
get-consumed_fields c xs = refl

module _ (key : String) (a : RecoveryAttempt) (d : Disk) where
  consumption-inversion :
      {n : ℕ} {fields : Fields}
      → consumption key a d ≡ ok (n, fields)
      → (state : Fields) × (before : ℕ) × (attempts : Items) × (load d.state_file ≡ ok state)
        × (counter_value (counters_in state) key ≡ ok before)
        × (n ≡ suc before)
        × (fields ≡ consumed_fields (with_counter (counters_in state) key n) attempts)
  unfolding consumption
  consumption-inversion h =
      let (state, l, k) = bind-ok (map_raised store_error (load d.state_file)) _ h in
      let (before, c, k') = bind-ok (counter_value (counters_in state) key) _ k in
      let (attempts, i, k'') =
        bind-ok (items_of (get_or state "recovery_attempts" (arr nil))) _ k' in
      let made = ok-injective k'' in
      (
        state,
        before,
        newest (append_item attempts (obj (attempt_record a (suc before)))),
        map_raised-eq-ok store_error (load d.state_file) l,
        c,
        sym (ap (λ x. x.0) made),
        sym (ap (λ x. x.1) made)
            ∙ ap
                (λ x.
                  consumed_fields (with_counter (counters_in state) key x)
                    (newest (append_item attempts (obj (attempt_record a (suc before))))))
                (ap (λ x. x.0) made),
      )

  -- A consumption that returns: the counter was one less, it is the number that is read next, and
  -- no other counter has changed.
  pub consume-used :
      (now j : String) {n : ℕ} {d' : Disk}
      → consume now key a d ≡ (ok n, d')
      → (before : ℕ) × (used key d ≡ ok before)
        × (n ≡ suc before)
        × (used j d' ≡ (if key == j then ok (suc before) else used j d))
  unfolding consume used
  consume-used now j {n} {d'} h = elim (Outcome-cases (consumption key a d)) [
    | inr (e, p) ↦ cc (rw p at h)
    | inl ((v, fields), p) ↦
        let (state, before, attempts, l, c, same, made) = consumption-inversion p in
        let (w, wrote, equal) = store_result-ok v (update_metadata now none fields d) (rw p at h) in
        let read =
          written_counters now fields d d' w j
            (rw made (consumed_fields-IsDict (with_counter (counters_in state) key v) attempts))
            (rw made (has_key-consumed_fields (with_counter (counters_in state) key v) attempts))
            wrote in
        (
          before,
          rw l c,
          sym equal ∙ same,
          read
              ∙ rw
                  (
                    made,
                    get-consumed_fields,
                    counter-with_counter (counters_in state) key j v c,
                    same,
                    l,
                  )
                  refl,
        )
  ]

  -- A consumption that raises leaves the disk alone.
  pub consume-raised :
      (now : String) {e : CoordinatorError} {d' : Disk}
      → consume now key a d ≡ (raised e, d')
      → d' ≡ d
  unfolding consume update_metadata
  consume-raised now h = elim (Outcome-cases (consumption key a d)) [
    | inr (e, p) ↦ sym (ap (λ x. x.1) (rw p at h))
    | inl ((v, fields), p) ↦ store_result-raised v d _ (rw p at h)
  ]
