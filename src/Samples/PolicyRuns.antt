-- ===== src/Samples/PolicyRuns.antt =====
-- Failures that are classified.

use meta_harness.Common.{
  arith, String, ◌≡◌, refl, ◌≤◌, Bool, true, false, Option, none, some, List, [], ◌∷◌, is_some,
}
use meta_harness.Common.Outcome.{ok}
use meta_harness.Common.Text.{is_blank, is_space, before_colon, upper}
use meta_harness.Policy.Table.{fatal, failure_classes, recovery_ladder, reason_of}
use meta_harness.Policy.Codes.{canonical_failure_code, stable_code, lookup, matches_key}
use meta_harness.Policy.Classify.{make_decision, rung, classify_failure}
use meta_harness.Policy.Boundaries.{decision, Found, hard_stop-Found}

hard_stop-Found_example :
    (code : String) × (canonical_failure_code "secret_leak" ≡ ok code)
    × Found failure_classes code fatal
unfolding is_blank is_space classify_failure canonical_failure_code stable_code before_colon upper
    lookup matches_key failure_classes make_decision rung recovery_ladder reason_of
    meta_harness.Policy.Codes.exact_row meta_harness.Policy.Codes.failure_code_aliases
    meta_harness.Policy.Codes.pattern_row meta_harness.Common.Text.has_suffix
    meta_harness.Policy.Codes.drop_last
hard_stop-Found_example =
    hard_stop-Found "secret_leak" false {d = decision fatal false true} refl refl refl
