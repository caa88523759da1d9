-- ===== src/Json.antt =====
-- The values of a decoded JSON document, and Python's `dict` over them: `state.json`, the run
-- checkpoint and the keyword arguments that a caller merges into the state.
pub mod Laws
use meta_harness.Common.{
  ℕ, zero, String, Bool, true, false, not, Option, none, some, ◌==◌, if◌then◌else◌, List, [], ◌∷◌,
}

-- Python's `int`: `negsuc n` is -(n + 1).
pub data ℤ : Type 0 where
  pos : ℕ → ℤ
  negsuc : ℕ → ℤ

-- The program never computes with a float; the flag says whether it is other than 0.0, and the text
-- is its spelling.
mutual
  pub data Value : Type 0 where
    null : Value
    str : String → Value
    bool : Bool → Value
    int : ℤ → Value
    float : Bool → String → Value
    obj : Fields → Value
    arr : Items → Value

  pub data Fields : Type 0 where
    end : Fields
    field : String → Value → Fields → Fields

  pub data Items : Type 0 where
    nil : Items
    cons : Value → Items → Items

abbrev pub is_null : Value → Bool
is_null null = true
is_null _ = false

-- `bool(value)`
unfoldable pub truthy : Value → Bool
truthy null = false
truthy (bool b) = b
truthy (int (pos zero)) = false
truthy (int n) = true
truthy (float b s) = b
truthy (str String.[]) = false
truthy (str s) = true
truthy (arr nil) = false
truthy (arr xs) = true
truthy (obj end) = false
truthy (obj fs) = true

-- `d.get(key)`: `None` is the answer for a missing key and for a stored `None`.
unfoldable pub get : Fields → String → Value
get end k = null
get (field j v fs) k = if j == k then v else get fs k

-- `key in d`
unfoldable pub has_key : Fields → String → Bool
has_key end k = false
has_key (field j v fs) k = if j == k then true else has_key fs k

-- `d[key] = value`
unfoldable pub put : Fields → String → Value → Fields
put end k w = field k w end
put (field j v fs) k w = if j == k then field j w fs else field j v (put fs k w)

-- `d.update(other)`
unfoldable pub update : Fields → Fields → Fields
update d end = d
update d (field k v fs) = update (put d k v) fs

-- `value.get(key)` of a value that is a mapping, and `None` of any other.
unfoldable pub get_in : Value → String → Value
get_in (obj fs) k = get fs k
get_in _ k = null

-- A text or `None`, as a value and back; a number or `None`.
abbrev pub opt_str : Option String → Value
opt_str none = null
opt_str (some s) = str s

abbrev pub as_str : Value → Option String
as_str (str s) = some s
as_str _ = none

abbrev pub opt_int : Option ℕ → Value
opt_int none = null
opt_int (some n) = int (pos n)

-- A list of texts, as the items of a JSON list.
abbrev pub text_items : List String → Items
text_items [] = nil
text_items (x ∷ xs) = cons (str x) (text_items xs)
