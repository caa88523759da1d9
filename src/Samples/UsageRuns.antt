-- ===== src/Samples/UsageRuns.antt =====
-- Usage records of two providers.
use meta_harness.Common.{◌≡◌, refl}
use meta_harness.Json.{Value, int, pos, obj, end, field, get}
use meta_harness.Usage.Record.{Usage, normalize_usage, usage_fields, add_usage}

-- A provider that gives no total.
abbrev raw : Value
raw = obj (field "prompt_tokens" (int (pos 7)) (field "completion_tokens" (int (pos 5)) end))

abbrev canonical : Usage
canonical = record {
  input_tokens = 7;
  cached_input_tokens = 0;
  cache_write_input_tokens = 0;
  output_tokens = 5;
  reasoning_output_tokens = 0;
  total_tokens = 12;
}

normalize_test : normalize_usage raw ≡ canonical
unfolding normalize_usage get meta_harness.Usage.Record.usage_of meta_harness.Usage.Record.found
    meta_harness.Usage.Record.by_alias meta_harness.Usage.Record.by_detail
    meta_harness.Usage.Record.count_in meta_harness.Usage.Record.count
normalize_test = refl

abbrev record_of_step : Value
record_of_step = obj (usage_fields canonical)
