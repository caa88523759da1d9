-- ===== src/Common/Text/Affix.antt =====
-- What `startswith` and `endswith` say of a text.
use Prim.Native.Char.{code}
use Prim.Native.String.{String, ◌++◌}
use Prim.Native.String.append as add
use mathlib.Core.Path.{◌≡◌, refl, ap, ap₂}
use mathlib.Core.Bool.{Bool, true, false, ◌&&◌}
use mathlib.Core.Logic.{inl, inr}
use text.Mathlib.TextEquality.{Char-path}
use meta_harness.Common.Tests.{nat_eq, nat_eq_iff, Bool-cases}
use meta_harness.Common.Text.{has_prefix, has_suffix}

pub and-left : (a b : Bool) → (a && b) ≡ true → a ≡ true
and-left true b h = refl
and-left false b h = h

pub and-right : (a b : Bool) → (a && b) ≡ true → b ≡ true
and-right true b h = h
and-right false b h = cc

pub has_prefix-append : (s p : String) → has_prefix s p ≡ true → (r : String) × (s ≡ p ++ r)
unfolding has_prefix
has_prefix-append s String.[] h = (s, rw add.nil)
has_prefix-append String.[] (String.◌∷◌ d p) h = cc
has_prefix-append (String.◌∷◌ c s) (String.◌∷◌ d p) h =
    let same = (nat_eq_iff (code c) (code d)).0 (and-left _ _ h) in
    let (r, e) = has_prefix-append s p (and-right (nat_eq (code c) (code d)) _ h) in
    (r, rw add.cons (ap₂ String.◌∷◌ (Char-path c d same) e))

prefix_antisym : (s p : String) → has_prefix p s ≡ true → has_prefix s p ≡ true → s ≡ p
unfolding has_prefix
prefix_antisym String.[] String.[] h k = refl
prefix_antisym String.[] (String.◌∷◌ d p) h k = cc
prefix_antisym (String.◌∷◌ c s) String.[] h k = cc
prefix_antisym (String.◌∷◌ c s) (String.◌∷◌ d p) h k =
    ap₂ String.◌∷◌ (Char-path c d ((nat_eq_iff (code c) (code d)).0 (and-left _ _ k))) (
      prefix_antisym s p (and-right (nat_eq (code d) (code c)) _ h)
        (and-right (nat_eq (code c) (code d)) _ k))

pub has_suffix-append : (s p : String) → has_suffix s p ≡ true → (r : String) × (s ≡ r ++ p)
unfolding has_suffix
has_suffix-append String.[] p h = (
  String.[],
  rw add.nil (prefix_antisym String.[] p (and-left _ _ h) (and-right (has_prefix p String.[]) _ h)),
)
has_suffix-append (String.◌∷◌ c s) p h =
    elim (Bool-cases (has_prefix p (String.◌∷◌ c s) && has_prefix (String.◌∷◌ c s) p)) [
      | inl e ↦ (
        String.[],
        rw add.nil (
            prefix_antisym (String.◌∷◌ c s) p (and-left _ _ e)
              (and-right (has_prefix p (String.◌∷◌ c s)) _ e)),
      )
      | inr e ↦
          let (r, q) = has_suffix-append s p (rw e at h) in
          (String.◌∷◌ c r, rw add.cons (ap (String.◌∷◌ c) q))
    ]
