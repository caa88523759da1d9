-- ===== src/Policy/Codes.antt =====
-- recovery_policy.py: the stable code of a failure, its aliases, and the look-up of its class.
use meta_harness.Common.{
  String, Bool, ◌&&◌, ◌||◌, Option, none, some, List, [], ◌∷◌, ◌==◌, if◌then◌else◌,
}
use meta_harness.Common.Outcome.{Outcome, ok, raised, ◌>>=◌}
use meta_harness.Common.Text.{strip, is_blank, before_colon, upper, has_prefix, has_suffix}
use meta_harness.Policy.Table.{FailureClass, Row, failure_classes}

-- The `ValueError` and `TypeError` of the module.
pub data PolicyError : Type 0 where
  empty_code blank_decision_reason forbidden_strategy : PolicyError

-- `stable_code(failure)`, of a failure that is a `str`
unfoldable pub stable_code : String → Outcome PolicyError String
stable_code s =
    if is_blank s then raised empty_code else ok (upper (strip (before_colon (strip s))))

-- `_FAILURE_CODE_ALIASES`
unfoldable pub failure_code_aliases : List (String × String)
failure_code_aliases =
    ("AGENT_AUTH_FAILURE", "EXTERNAL_AUTH_REQUIRED")
    ∷ ("LLM_401", "EXTERNAL_AUTH_REQUIRED")
    ∷ ("LLM_403", "EXTERNAL_AUTH_REQUIRED")
    ∷ ("LLM_AUTH_FAILURE", "EXTERNAL_AUTH_REQUIRED")
    ∷ []

-- `aliases.get(code, code)`
resolve : List (String × String) → String → String
resolve [] code = code
resolve ((k, v) ∷ rows) code = if k == code then v else resolve rows code

unfoldable pub canonical_failure_code : String → Outcome PolicyError String
unfolding resolve
canonical_failure_code s = do code ← stable_code s; ok (resolve failure_code_aliases code)

-- `key[1:]` and `key[:-1]`
unfoldable pub drop_first : String → String
drop_first String.[] = String.[]
drop_first (String.◌∷◌ c s) = s

unfoldable pub drop_last : String → String
drop_last String.[] = String.[]
drop_last (String.◌∷◌ c String.[]) = String.[]
drop_last (String.◌∷◌ c (String.◌∷◌ d s)) = String.◌∷◌ c (drop_last (String.◌∷◌ d s))

-- The test of the loop in `_lookup`.
unfoldable pub matches_key : String → String → Bool
matches_key key code =
    (has_suffix key "*" && has_prefix code (drop_last key))
    || (has_prefix key "*" && has_suffix code (drop_first key))

-- `FAILURE_CLASSES.get(code)`
unfoldable pub exact_row : List Row → String → Option FailureClass
exact_row [] code = none
exact_row ((k, c) ∷ rows) code = if k == code then some c else exact_row rows code

unfoldable pub pattern_row : List Row → String → Option FailureClass
pattern_row [] code = none
pattern_row ((k, c) ∷ rows) code = if matches_key k code then some c else pattern_row rows code

abbrev or_else : Option FailureClass → Option FailureClass → Option FailureClass
or_else (some c) o = some c
or_else none o = o

-- `_lookup`, over any table
unfoldable pub lookup_in : List Row → String → Option FailureClass
lookup_in rows code = or_else (exact_row rows code) (pattern_row rows code)

unfoldable pub lookup : String → Option FailureClass
unfolding lookup_in
lookup = lookup_in failure_classes
