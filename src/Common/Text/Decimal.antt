-- ===== src/Common/Text/Decimal.antt =====
-- Decimal texts of numbers, as an f-string prints them, and the length of a text.
use Prim.Native.Nat.{ℕ, zero, suc, ◌+◌, ◌/◌, ◌%◌}
use Prim.Native.String.{String, ◌++◌, slice}
use meta_harness.Common.Tests.{ltb, if◌then◌else◌}

unfoldable pub digit : ℕ → String
digit n = slice "0123456789" n (n + 1)

-- The digits of `n`, with a round for each of at most `n + 1` digits.
unfoldable pub digits : ℕ → ℕ → String
unfolding digit
digits zero n = digit n
digits (suc k) n =
    let above = digits k (n / 10) in if ltb n 10 then digit n else above ++ digit (n % 10)

-- `f"{n}"`
unfoldable pub decimal : ℕ → String
unfolding digits
decimal n = digits n n

-- `f"{n:02d}"`
unfoldable pub two_digits : ℕ → String
unfolding decimal
two_digits n = if ltb n 10 then "0" ++ decimal n else decimal n

-- `len(s)`
unfoldable pub text_length : String → ℕ
text_length String.[] = 0
text_length (String.◌∷◌ c s) = suc (text_length s)
