-- ===== src/Usage/Record.antt =====
-- usage.py: `normalize_usage` and `add_usage`.
use meta_harness.Common.{ℕ, ◌+◌, String, Option, none, some, List, [], ◌∷◌}
use meta_harness.Json.{pos, Value, int, obj, Fields, end, field, get}

-- A record with exactly the counters of `USAGE_FIELDS`.
pub record Usage : Type 0 where
  pub input_tokens : ℕ
  pub cached_input_tokens : ℕ
  pub cache_write_input_tokens : ℕ
  pub output_tokens : ℕ
  pub reasoning_output_tokens : ℕ
  pub total_tokens : ℕ

-- `_count`
unfoldable pub count : Value → Option ℕ
count (int (pos n)) = some n
count v = none

-- `empty_usage`
unfoldable pub empty_usage : Usage
empty_usage = record {
  input_tokens = 0;
  cached_input_tokens = 0;
  cache_write_input_tokens = 0;
  output_tokens = 0;
  reasoning_output_tokens = 0;
  total_tokens = 0;
}

abbrev pub first_of : Option ℕ → Option ℕ → Option ℕ
first_of (some n) o = some n
first_of none o = o

-- The loop over `_ALIASES[name]`.
unfoldable pub by_alias : List String → Fields → Option ℕ
unfolding count
by_alias [] source = none
by_alias (alias ∷ aliases) source = first_of (count (get source alias)) (by_alias aliases source)

unfoldable pub count_in : Value → String → Option ℕ
unfolding count
count_in (obj details) key = count (get details key)
count_in v key = none

-- The loop over `_NESTED.get(name, ())`.
unfoldable pub by_detail : List (String × String) → Fields → Option ℕ
unfolding count_in
by_detail [] source = none
by_detail ((container, key) ∷ rows) source =
    first_of (count_in (get source container) key) (by_detail rows source)

-- One round of the loop over the fields.
unfoldable pub found : List String → List (String × String) → Fields → Option ℕ
unfolding by_alias by_detail
found aliases nested source = first_of (by_alias aliases source) (by_detail nested source)

-- `found or 0`
abbrev pub or_zero : Option ℕ → ℕ
or_zero none = 0
or_zero (some n) = n

abbrev or_sum : Option ℕ → ℕ → ℕ
or_sum none n = n
or_sum (some t) n = t

-- `normalize_usage`, of a mapping: `_ALIASES` and `_NESTED` row by row
unfoldable pub usage_of : Fields → Usage
unfolding found
usage_of source =
    let input = or_zero (found ("input_tokens" ∷ "prompt_tokens" ∷ []) [] source) in
    let output = or_zero (found ("output_tokens" ∷ "completion_tokens" ∷ []) [] source) in
    record {
      input_tokens = input;
      cached_input_tokens = or_zero (
          found ("cached_input_tokens" ∷ "cache_read_input_tokens" ∷ [])
            (("prompt_tokens_details", "cached_tokens")
              ∷ ("input_tokens_details", "cached_tokens")
              ∷ [])
            source);
      cache_write_input_tokens = or_zero (
          found ("cache_write_input_tokens" ∷ "cache_creation_input_tokens" ∷ [])
            (("prompt_tokens_details", "cache_write_tokens")
              ∷ ("input_tokens_details", "cache_write_tokens")
              ∷ [])
            source);
      output_tokens = output;
      reasoning_output_tokens = or_zero (
          found ("reasoning_output_tokens" ∷ [])
            (("completion_tokens_details", "reasoning_tokens")
              ∷ ("output_tokens_details", "reasoning_tokens")
              ∷ [])
            source);
      total_tokens = or_sum (found ("total_tokens" ∷ []) [] source) (input + output);
    }

-- `normalize_usage`
unfoldable pub normalize_usage : Value → Usage
unfolding usage_of
normalize_usage (obj source) = usage_of source
normalize_usage v = usage_of end

-- The dictionary of a record.
unfoldable pub usage_fields : Usage → Fields
usage_fields u = field "input_tokens" (int (pos u.input_tokens)) (
    field "cached_input_tokens" (int (pos u.cached_input_tokens)) (
      field "cache_write_input_tokens" (int (pos u.cache_write_input_tokens)) (
        field "output_tokens" (int (pos u.output_tokens)) (
          field "reasoning_output_tokens" (int (pos u.reasoning_output_tokens))
            (field "total_tokens" (int (pos u.total_tokens)) end)))))

-- One round of the loop in `add_usage`: what a record that is a mapping adds to a total.
unfoldable pub counted : Value → String → ℕ
unfolding count_in
counted v name = or_zero (count_in v name)

-- `add_usage`
unfoldable pub add_to : Usage → List Value → Usage
unfolding counted
add_to total [] = total
add_to total (v ∷ vs) =
    add_to
      (record {
        input_tokens = total.input_tokens + counted v "input_tokens";
        cached_input_tokens = total.cached_input_tokens + counted v "cached_input_tokens";
        cache_write_input_tokens =
            total.cache_write_input_tokens + counted v "cache_write_input_tokens";
        output_tokens = total.output_tokens + counted v "output_tokens";
        reasoning_output_tokens =
            total.reasoning_output_tokens + counted v "reasoning_output_tokens";
        total_tokens = total.total_tokens + counted v "total_tokens";
      })
      vs

unfoldable pub add_usage : List Value → Usage
unfolding add_to empty_usage
add_usage vs = add_to empty_usage vs
