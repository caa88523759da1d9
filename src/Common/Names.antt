-- ===== src/Common/Names.antt =====
-- Lists of texts: a `frozenset` of texts is the list of its members in sorted order, so `sorted`
-- gives that list, a difference of sets is a filter, and equality is that of the lists.
use Prim.Native.Char.{code}
use Prim.Native.String.{String}
use text.Mathlib.TextEquality.{eq_iff}
use text.Mathlib.TextPositions.{eq_refl}
use mathlib.Core.Path.{◌≡◌, refl, ap, ap₂, ◌∙◌}
use native.Mathlib.Omega.{arith}
use mathlib.Core.Logic.{inl, inr}
use mathlib.Core.Bool.{Bool, true, false, not, ◌&&◌, ◌||◌}
use mathlib.Core.List.{List, [], ◌∷◌, ◌++◌}
use mathlib.Core.Option.{Option, none, some}
use meta_harness.Common.Tests.{◌==◌, ltb, nat_eq, if◌then◌else◌, Bool-cases}
use meta_harness.Common.Text.Affix.{and-left, and-right}

-- `x in xs`
unfoldable pub mem : String → List String → Bool
mem x [] = false
mem x (y ∷ ys) = (x == y) || mem x ys

-- `xs - ys`, and the paths of `xs` that are not in `ys`
unfoldable pub minus : List String → List String → List String
unfolding mem
minus [] ys = []
minus (x ∷ xs) ys = let rest = minus xs ys in if mem x ys then rest else x ∷ rest

-- `tuple(dict.fromkeys(xs))`: the first occurrences, after those that are kept already
unfoldable pub from_keys : List String → List String → List String
unfolding mem
from_keys kept [] = kept
from_keys kept (x ∷ xs) = from_keys (if mem x kept then kept else kept ++ x ∷ []) xs

-- `s < t`, by code points
unfoldable pub text_lt : String → String → Bool
text_lt s String.[] = false
text_lt String.[] (String.◌∷◌ d t) = true
text_lt (String.◌∷◌ c s) (String.◌∷◌ d t) =
    ltb (code c) (code d) || (nat_eq (code c) (code d) && text_lt s t)

unfoldable pub insert_sorted : String → List String → List String
unfolding text_lt
insert_sorted x [] = x ∷ []
insert_sorted x (y ∷ ys) =
    let rest = insert_sorted x ys in
    if x == y then y ∷ ys else if text_lt x y then x ∷ (y ∷ ys) else y ∷ rest

-- `sorted(set(xs))`
unfoldable pub sorted_set : List String → List String
unfolding insert_sorted
sorted_set [] = []
sorted_set (x ∷ xs) = insert_sorted x (sorted_set xs)

abbrev pub is_nil {ℓ} : {A : Type ℓ} → List A → Bool
is_nil [] = true
is_nil (x ∷ xs) = false

unfoldable pub texts_eq : List String → List String → Bool
texts_eq [] [] = true
texts_eq (x ∷ xs) (y ∷ ys) = (x == y) && texts_eq xs ys
texts_eq _ _ = false

unfoldable pub same_text : Option String → Option String → Bool
same_text none none = true
same_text (some s) (some t) = s == t
same_text _ _ = false

pub same_text-eq : (a b : Option String) → same_text a b ≡ true → a ≡ b
unfolding same_text
same_text-eq none none h = refl
same_text-eq (some s) (some t) h = ap some ((eq_iff s t).0 h)
same_text-eq none (some t) h = cc
same_text-eq (some s) none h = cc

pub texts_eq_lem : (xs ys : List String) → texts_eq xs ys ≡ true → xs ≡ ys
unfolding texts_eq
texts_eq_lem [] [] h = refl
texts_eq_lem [] (y ∷ ys) h = cc
texts_eq_lem (x ∷ xs) [] h = cc
texts_eq_lem (x ∷ xs) (y ∷ ys) h =
    ap₂ ◌∷◌ ((eq_iff x y).0 (and-left _ _ h)) (texts_eq_lem xs ys (and-right (x == y) _ h))

pub texts_eq_refl : (xs : List String) → texts_eq xs xs ≡ true
unfolding texts_eq
texts_eq_refl [] = refl
texts_eq_refl (x ∷ xs) = rw (eq_refl x) (texts_eq_refl xs)

-- A member of the first set is in the second one when nothing is left of the difference.
pub mem-minus :
    (x : String) (xs ys : List String) → minus xs ys ≡ [] → mem x xs ≡ true → mem x ys ≡ true
unfolding minus mem
mem-minus x [] ys h k = cc
mem-minus x (z ∷ zs) ys h k = elim (Bool-cases (mem z ys)) [
  | inr e ↦ cc
  | inl e ↦ elim (Bool-cases (x == z)) [
    | inl q ↦ rw ((eq_iff x z).0 q) e
    | inr q ↦ mem-minus x zs ys (rw e at h) (rw q at k)
  ]
]

mem-insert_sorted :
    (x y : String) (ys : List String) → mem x (insert_sorted y ys) ≡ ((x == y) || mem x ys)
unfolding mem insert_sorted
mem-insert_sorted x y [] = refl
mem-insert_sorted x y (z ∷ zs) =
    ground (arith, eq_iff x y, eq_iff y z, eq_iff x z, mem-insert_sorted x y zs)

-- A sorted set has the members of the list that it is made of.
pub mem-sorted_set : (x : String) (xs : List String) → mem x (sorted_set xs) ≡ mem x xs
unfolding mem sorted_set
mem-sorted_set x [] = refl
mem-sorted_set x (y ∷ ys) = mem-insert_sorted x y (sorted_set ys) ∙ rw (mem-sorted_set x ys)

-- What a test of a list or of two texts says.
pub nil-test : {A : Type 0} (xs : List A) → not (is_nil xs) ≡ false → xs ≡ []
nil-test [] h = refl
nil-test (x ∷ xs) h = cc

pub equal-test : (s t : String) → not (s == t) ≡ false → s ≡ t
equal-test s t h = (eq_iff s t).0 (ground arith)
