-- ===== src/Common/Text/Strip.antt =====
-- `str.strip()` with its laws. White space is what `str.isspace` says of one character.
use Prim.Native.Char.{Char, code}
use Prim.Native.String.{String}
use mathlib.Core.Path.{◌≡◌, refl}
use mathlib.Core.Bool.{Bool, true, false, ◌&&◌, ◌||◌}
use mathlib.Core.Logic.{inl, inr}
use meta_harness.Common.Tests.{leb, nat_eq, if◌then◌else◌, Bool-cases}

unfoldable pub is_space : Char → Bool
is_space c =
    let n = code c in
    (leb 9 n && leb n 13)
    || (leb 28 n && leb n 32)
    || nat_eq n 0x85
    || nat_eq n 0xa0
    || nat_eq n 0x1680
    || (leb 0x2000 n && leb n 0x200a)
    || nat_eq n 0x2028
    || nat_eq n 0x2029
    || nat_eq n 0x202f
    || nat_eq n 0x205f
    || nat_eq n 0x3000

abbrev pub is_empty : String → Bool
is_empty String.[] = true
is_empty (String.◌∷◌ c s) = false

unfoldable pub lstrip : String → String
lstrip String.[] = String.[]
lstrip (String.◌∷◌ c s) = if is_space c then lstrip s else String.◌∷◌ c s

abbrev pub trim_cons : Bool → Char → String → String
trim_cons true c String.[] = String.[]
trim_cons true c (String.◌∷◌ d s) = String.◌∷◌ c (String.◌∷◌ d s)
trim_cons false c s = String.◌∷◌ c s

unfoldable pub rstrip : String → String
rstrip String.[] = String.[]
rstrip (String.◌∷◌ c s) = trim_cons (is_space c) c (rstrip s)

unfoldable pub strip : String → String
unfolding lstrip rstrip
strip s = rstrip (lstrip s)

-- `not s.strip()`
unfoldable pub is_blank : String → Bool
unfolding strip
is_blank s = is_empty (strip s)

trim_cons-rstrip :
    (b : Bool) (c : Char) (s : String)
    → is_space c ≡ b
    → rstrip s ≡ s
    → rstrip (trim_cons b c s) ≡ trim_cons b c s
unfolding rstrip
trim_cons-rstrip true c String.[] e h = refl
trim_cons-rstrip true c (String.◌∷◌ d s) e h = rw (e, h)
trim_cons-rstrip false c s e h = rw (e, h)

rstrip_idem : (s : String) → rstrip (rstrip s) ≡ rstrip s
unfolding rstrip
rstrip_idem String.[] = refl
rstrip_idem (String.◌∷◌ c s) = trim_cons-rstrip (is_space c) c (rstrip s) refl (rstrip_idem s)

lstrip-rstrip_cons :
    (c : Char) (s : String)
    → is_space c ≡ false
    → lstrip (rstrip (String.◌∷◌ c s)) ≡ rstrip (String.◌∷◌ c s)
unfolding lstrip rstrip
lstrip-rstrip_cons c s e = rw e (rw e refl)

lstrip-rstrip-lstrip : (s : String) → lstrip (rstrip (lstrip s)) ≡ rstrip (lstrip s)
unfolding lstrip
lstrip-rstrip-lstrip String.[] = unfold rstrip in refl
lstrip-rstrip-lstrip (String.◌∷◌ c s) = elim (Bool-cases (is_space c)) [
  | inl e ↦ rw e (lstrip-rstrip-lstrip s)
  | inr e ↦ rw e (lstrip-rstrip_cons c s e)
]

-- Stripping twice is stripping once.
pub strip_idem : (s : String) → strip (strip s) ≡ strip s
unfolding strip
strip_idem s = rw lstrip-rstrip-lstrip (rstrip_idem (lstrip s))
