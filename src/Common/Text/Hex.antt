-- ===== src/Common/Text/Hex.antt =====
-- Digests: texts of a fixed number of lowercase hexadecimal digits.
use Prim.Native.Nat.{ℕ, zero, suc}
use Prim.Native.Char.{Char, code}
use Prim.Native.String.{String}
use mathlib.Core.Bool.{Bool, true, false, ◌&&◌, ◌||◌}
use meta_harness.Common.Tests.{leb}

unfoldable pub is_hex : Char → Bool
is_hex c = (leb b'0' (code c) && leb (code c) b'9') || (leb b'a' (code c) && leb (code c) b'f')

-- `[0-9a-f]{n}\Z` and nothing else
unfoldable pub hex_run : ℕ → String → Bool
unfolding is_hex
hex_run zero String.[] = true
hex_run zero (String.◌∷◌ c s) = false
hex_run (suc n) String.[] = false
hex_run (suc n) (String.◌∷◌ c s) = is_hex c && hex_run n s

-- `[0-9a-f]{64}\Z`
unfoldable pub is_sha256 : String → Bool
unfolding hex_run
is_sha256 s = hex_run 64 s

-- `(?:[0-9a-f]{40}|[0-9a-f]{64})\Z`
unfoldable pub is_object_id : String → Bool
unfolding hex_run
is_object_id s = hex_run 40 s || hex_run 64 s
