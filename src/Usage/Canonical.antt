-- ===== src/Usage/Canonical.antt =====
-- usage.py: a canonical record is its own normal form.
use meta_harness.Common.{◌≡◌, refl}
use meta_harness.Json.{obj, get}
use meta_harness.Usage.Record.{
  Usage, count, by_alias, by_detail, count_in, found, usage_of, normalize_usage, usage_fields,
}

-- A canonical record that is written is read back as it is: `normalize_usage` of its dictionary is the
-- record, so that normalizing twice is normalizing once.
pub normalize-usage_fields : (u : Usage) → normalize_usage (obj (usage_fields u)) ≡ u
unfolding normalize_usage usage_of found by_alias by_detail count_in count usage_fields get
normalize-usage_fields u = refl
