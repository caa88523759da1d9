-- ===== src/Json/Laws.antt =====
-- What reading a dictionary gives after it was written to or merged.
use meta_harness.Common.{
  true, Bool-cases, inl, inr, String, ◌≡◌, refl, ◌∙◌, false, arith, eq_iff, ◌==◌, if◌then◌else◌,
}
use meta_harness.Json.{Value, Fields, end, field, get, has_key, put, update}

pub get-put :
    (d : Fields) (k j : String) (v : Value) → get (put d k v) j ≡ (if k == j then v else get d j)
unfolding get put
get-put end k j v = refl
get-put (field i w d) k j v = ground (arith, eq_iff k j, eq_iff i k, eq_iff i j, get-put d k j v)

-- A key that the merged dictionary lacks reads as before.
pub get-update_absent :
    (d fs : Fields) (k : String) → has_key fs k ≡ false → get (update d fs) k ≡ get d k
unfolding update has_key
get-update_absent d end k h = refl
get-update_absent d (field j v fs) k h =
    get-update_absent (put d j v) fs k (ground arith) ∙ rw get-put (ground arith)

-- The keys of a dictionary are distinct.
abbrev pub IsDict : Fields → Type 0
IsDict end = Unit
IsDict (field k v fs) = (has_key fs k ≡ false) × IsDict fs

-- Merging is what `d.update(other)` says: the other dictionary's value where it has the key.
pub get-update :
    (d fs : Fields) (k : String)
    → IsDict fs
    → get (update d fs) k ≡ (if has_key fs k then get fs k else get d k)
unfolding update has_key get
get-update d end k h = refl
get-update d (field j v fs) k (fresh, h) =
    get-update (put d j v) fs k h ∙ rw get-put (ground (arith, eq_iff j k))

pub has_key-put :
    (d : Fields) (k j : String) (v : Value)
    → has_key (put d k v) j ≡ (if k == j then true else has_key d j)
unfolding has_key put
has_key-put end k j v = refl
has_key-put (field i w d) k j v =
    ground (arith, eq_iff k j, eq_iff i k, eq_iff i j, has_key-put d k j v)

pub put-IsDict : (d : Fields) (k : String) (v : Value) → IsDict d → IsDict (put d k v)
unfolding has_key put
put-IsDict end k v h = (refl, tt)
put-IsDict (field j w d) k v (fresh, h) = elim (Bool-cases (j == k)) [
  | inl e ↦ rw e (fresh, h)
  | inr e ↦ rw e (has_key-put d k j v ∙ ground (arith, eq_iff j k, eq_iff k j), put-IsDict d k v h)
]

-- Merging keeps the keys of both dictionaries.
pub has_key-update_kept :
    (d fs : Fields) (k : String) → has_key d k ≡ true → has_key (update d fs) k ≡ true
unfolding update
has_key-update_kept d end k h = h
has_key-update_kept d (field j v fs) k h =
    has_key-update_kept (put d j v) fs k (rw has_key-put (ground arith))

pub has_key-update :
    (d fs : Fields) (k : String) → has_key fs k ≡ true → has_key (update d fs) k ≡ true
unfolding update has_key
has_key-update d end k h = cc
has_key-update d (field j v fs) k h = elim (Bool-cases (j == k)) [
  | inl e ↦ has_key-update_kept (put d j v) fs k (rw (has_key-put, e) refl)
  | inr e ↦ has_key-update (put d j v) fs k (rw e at h)
]

pub has_key-update_absent :
    (d fs : Fields) (k : String) → has_key fs k ≡ false → has_key (update d fs) k ≡ has_key d k
unfolding update has_key
has_key-update_absent d end k h = refl
has_key-update_absent d (field j v fs) k h =
    has_key-update_absent (put d j v) fs k (ground arith) ∙ rw has_key-put (ground arith)
