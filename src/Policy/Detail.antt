-- ===== src/Policy/Detail.antt =====
-- The detail behind a failure code's colon never changes the classification.
use Prim.Native.Char.{Char, char, code}
use Prim.Native.String.{◌++◌}
use Prim.Native.String.append as add
use meta_harness.Common.{String, ◌≡◌, refl, ap, Bool, true, false, inl, inr, Bool-cases, nat_eq}
use meta_harness.Common.Text.{
  is_space, trim_cons, lstrip, rstrip, strip, is_blank, before_colon, strip_idem, is_empty,
}
use meta_harness.Policy.Codes.{stable_code, canonical_failure_code}
use meta_harness.Policy.Classify.{classify_failure}

abbrev pub colon : Char
colon = char 58 tt

abbrev pub NoColon : String → Type 0
NoColon String.[] = Unit
NoColon (String.◌∷◌ c s) = (nat_eq (code c) b':' ≡ false) × NoColon s

before_colon-append : (s t : String) → NoColon s → before_colon (s ++ String.◌∷◌ colon t) ≡ s
unfolding before_colon
before_colon-append String.[] t h = rw add.nil
before_colon-append (String.◌∷◌ c s) t (h, hs) =
    rw (add.cons, h) (ap (String.◌∷◌ c) (before_colon-append s t hs))

before_colon-NoColon : (s : String) → NoColon s → before_colon s ≡ s
unfolding before_colon
before_colon-NoColon String.[] h = refl
before_colon-NoColon (String.◌∷◌ c s) (h, hs) = rw h (ap (String.◌∷◌ c) (before_colon-NoColon s hs))

lstrip-NoColon : (s : String) → NoColon s → NoColon (lstrip s)
unfolding lstrip
lstrip-NoColon String.[] h = tt
lstrip-NoColon (String.◌∷◌ c s) (h, hs) = elim (Bool-cases (is_space c)) [
  | inl e ↦ rw e (lstrip-NoColon s hs)
  | inr e ↦ rw e (h, hs)
]

trim-NoColon :
    (c : Char) (s : String) (b : Bool)
    → nat_eq (code c) b':' ≡ false
    → NoColon s
    → NoColon (trim_cons b c s)
trim-NoColon c String.[] true h hs = tt
trim-NoColon c (String.◌∷◌ d s) true h hs = (h, hs)
trim-NoColon c s false h hs = (h, hs)

rstrip-NoColon : (s : String) → NoColon s → NoColon (rstrip s)
unfolding rstrip
rstrip-NoColon String.[] h = tt
rstrip-NoColon (String.◌∷◌ c s) (h, hs) =
    trim-NoColon c (rstrip s) (is_space c) h (rstrip-NoColon s hs)

-- A text that is not blank keeps what follows it when the white space in front goes.
lstrip-append : (s t : String) → is_empty (lstrip s) ≡ false → lstrip (s ++ t) ≡ lstrip s ++ t
unfolding lstrip
lstrip-append String.[] t h = cc
lstrip-append (String.◌∷◌ c s) t h = elim (Bool-cases (is_space c)) [
  | inl e ↦ rw (add.cons, e) (lstrip-append s t (rw e at h))
  | inr e ↦ rw (add.cons, e, add.cons)
]

rstrip-colon : (t : String) → rstrip (String.◌∷◌ colon t) ≡ String.◌∷◌ colon (rstrip t)
unfolding rstrip is_space
rstrip-colon t = refl

trim_cons-colon :
    (b : Bool) (c : Char) (s t : String)
    → trim_cons b c (s ++ String.◌∷◌ colon t) ≡ String.◌∷◌ c (s ++ String.◌∷◌ colon t)
trim_cons-colon true c String.[] t = rw add.nil
trim_cons-colon true c (String.◌∷◌ d s) t = rw add.cons
trim_cons-colon false c s t = refl

rstrip-append : (s t : String) → rstrip (s ++ String.◌∷◌ colon t) ≡ s ++ String.◌∷◌ colon (rstrip t)
unfolding rstrip
rstrip-append String.[] t = rw (add.nil, add.nil) (rstrip-colon t)
rstrip-append (String.◌∷◌ c s) t =
    rw (add.cons, add.cons, rstrip-append s t) (trim_cons-colon (is_space c) c s (rstrip t))

lstrip_idem : (s : String) → lstrip (lstrip s) ≡ lstrip s
unfolding lstrip
lstrip_idem String.[] = refl
lstrip_idem (String.◌∷◌ c s) = elim (Bool-cases (is_space c)) [
  | inl e ↦ rw e (lstrip_idem s)
  | inr e ↦ rw e (rw e)
]

is_empty-rstrip : (s : String) → is_empty s ≡ true → is_empty (rstrip s) ≡ true
unfolding rstrip
is_empty-rstrip String.[] h = refl
is_empty-rstrip (String.◌∷◌ c s) h = cc

is_empty-append : (s t : String) → is_empty (s ++ String.◌∷◌ colon t) ≡ false
is_empty-append String.[] t = rw add.nil
is_empty-append (String.◌∷◌ c s) t = rw add.cons

nonblank-lstrip : (s : String) → is_blank s ≡ false → is_empty (lstrip s) ≡ false
unfolding is_blank
nonblank-lstrip s h = elim (Bool-cases (is_empty (lstrip s))) [
  | inl e ↦ cc (is_empty-rstrip (lstrip s) e)
  | inr e ↦ e
]

strip-NoColon : (s : String) → NoColon s → NoColon (strip s)
unfolding strip
strip-NoColon s h = rstrip-NoColon (lstrip s) (lstrip-NoColon s h)

strip-lstrip : (s : String) → strip (lstrip s) ≡ strip s
unfolding strip
strip-lstrip s = rw lstrip_idem

module _ (s d : String) (filled : is_blank s ≡ false) where
  strip-append : strip (s ++ String.◌∷◌ colon d) ≡ lstrip s ++ String.◌∷◌ colon (rstrip d)
  unfolding strip
  strip-append =
      rw (lstrip-append s (String.◌∷◌ colon d) (nonblank-lstrip s filled))
        (rstrip-append (lstrip s) d)

  is_blank-append : is_blank (s ++ String.◌∷◌ colon d) ≡ false
  unfolding is_blank
  is_blank-append = rw strip-append (is_empty-append (lstrip s) (rstrip d))

  head_of_detail :
      NoColon s
      → strip (before_colon (strip (s ++ String.◌∷◌ colon d))) ≡ strip (before_colon (strip s))
  head_of_detail h =
      rw (strip-append, before_colon-append (lstrip s) (rstrip d) (lstrip-NoColon s h))
        (rw (before_colon-NoColon (strip s) (strip-NoColon s h), strip_idem s) (strip-lstrip s))

  stable_code-detail : NoColon s → stable_code (s ++ String.◌∷◌ colon d) ≡ stable_code s
  unfolding stable_code
  stable_code-detail h = rw (is_blank-append, filled, head_of_detail h)

-- The check ID or detail behind the colon of a failure that names a code changes neither its class,
-- nor its strategy, nor anything else of the decision.
pub classify_failure-detail :
    (s d : String) (exhausted : Bool)
    → is_blank s ≡ false
    → NoColon s
    → classify_failure (s ++ String.◌∷◌ colon d) exhausted ≡ classify_failure s exhausted
unfolding classify_failure canonical_failure_code
classify_failure-detail s d exhausted filled h = rw (stable_code-detail s d filled h)
