-- ===== src/Common/Text.antt =====
-- Python's `str` methods that the program calls: `strip`, `startswith`, `endswith`, `upper`,
-- `casefold`, and the text before a first colon. A text is a list of characters.
mod Strip
pub mod Affix
pub mod Decimal
pub mod Hex
unfoldable pub use Strip.*
use Prim.Native.Nat.{ℕ, zero, suc, ◌-◌}
use Prim.Native.Char.{Char, code}
use Prim.Native.String.{String, ◌++◌, slice}
use mathlib.Core.Bool.{Bool, true, false, ◌&&◌, ◌||◌, not}
use meta_harness.Common.Tests.{leb, nat_eq, if◌then◌else◌}

-- `s.startswith(p)`
unfoldable pub has_prefix : String → String → Bool
has_prefix s String.[] = true
has_prefix String.[] (String.◌∷◌ d p) = false
has_prefix (String.◌∷◌ c s) (String.◌∷◌ d p) = nat_eq (code c) (code d) && has_prefix s p

-- `s.endswith(p)`
unfoldable pub has_suffix : String → String → Bool
unfolding has_prefix
has_suffix String.[] p = has_prefix p String.[] && has_prefix String.[] p
has_suffix (String.◌∷◌ c s) p =
    let rest = has_suffix s p in
    (has_prefix p (String.◌∷◌ c s) && has_prefix (String.◌∷◌ c s) p) || rest

-- `s.split(":", 1)[0]`
unfoldable pub before_colon : String → String
before_colon String.[] = String.[]
before_colon (String.◌∷◌ c s) =
    if nat_eq (code c) b':' then String.[] else String.◌∷◌ c (before_colon s)

-- `s[:n]`
unfoldable pub cut_text : ℕ → String → String
cut_text zero s = String.[]
cut_text (suc n) String.[] = String.[]
cut_text (suc n) (String.◌∷◌ c s) = String.◌∷◌ c (cut_text n s)

abbrev between : ℕ → ℕ → ℕ → Bool
between lo n hi = leb lo n && leb n hi

-- The characters beyond ASCII whose upper case is ASCII are listed; the others are left alone, so
-- no text that holds one of those becomes a code that the program compares with.
upper_wide : Char → String
upper_wide c =
    let n = code c in
    if nat_eq n 0xdf
    then "SS"
    else if nat_eq n 0x131
    then "I"
    else if nat_eq n 0x17f
    then "S"
    else if nat_eq n 0xfb00
    then "FF"
    else if nat_eq n 0xfb01
    then "FI"
    else if nat_eq n 0xfb02
    then "FL"
    else if nat_eq n 0xfb03
    then "FFI"
    else if nat_eq n 0xfb04
    then "FFL"
    else if between 0xfb05 n 0xfb06
    then "ST"
    else String.◌∷◌ c String.[]

upper_char : Char → String
unfolding upper_wide
upper_char c =
    if between b'a' (code c) b'z'
    then slice "ABCDEFGHIJKLMNOPQRSTUVWXYZ" (code c - 97) (code c - 96)
    else upper_wide c

-- `s.upper()`
unfoldable pub upper : String → String
unfolding upper_char
upper String.[] = String.[]
upper (String.◌∷◌ c s) = upper_char c ++ upper s

fold_wide : Char → String
fold_wide c =
    let n = code c in
    if nat_eq n 0xdf
    then "ss"
    else if nat_eq n 0x1e9e
    then "ss"
    else if nat_eq n 0x17f
    then "s"
    else if nat_eq n 0x212a
    then "k"
    else if nat_eq n 0xfb00
    then "ff"
    else if nat_eq n 0xfb01
    then "fi"
    else if nat_eq n 0xfb02
    then "fl"
    else if nat_eq n 0xfb03
    then "ffi"
    else if nat_eq n 0xfb04
    then "ffl"
    else if between 0xfb05 n 0xfb06
    then "st"
    else String.◌∷◌ c String.[]

fold_char : Char → String
unfolding fold_wide
fold_char c =
    if between b'A' (code c) b'Z'
    then slice "abcdefghijklmnopqrstuvwxyz" (code c - 65) (code c - 64)
    else fold_wide c

-- `s.casefold()`, by the same rule for the characters beyond ASCII.
unfoldable pub casefold : String → String
unfolding fold_char
casefold String.[] = String.[]
casefold (String.◌∷◌ c s) = fold_char c ++ casefold s
