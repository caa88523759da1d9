-- ===== src/Samples/SettleRuns.antt =====
-- A step that is given up behind its last attempt, and a step that depends on it.
use meta_harness.Common.{◌≡◌, refl, true, some, [], ◌∷◌}
use meta_harness.Common.Outcome.{ok}
use meta_harness.Json.{Value, null, str, obj, arr, end, field, nil}
use meta_harness.Steps.Finalize.{RunDir}
use meta_harness.Steps.Settle.{Abandoned, SettleHost, rollback_code, distinct}
use meta_harness.Steps.Settling.{mark_failed_continue, skip_dependent}
use meta_harness.Steps.Continued.{
  IsContinued, mark_failed_continue-IsContinued, IsSkipped, skip_dependent-IsSkipped,
}
use meta_harness.Samples.AttemptRuns.{Copy, home, one_file, edited, clean, whole_attempt}
use meta_harness.Samples.StoreRuns.{whole_store}
use meta_harness.Samples.CoordinatorRuns.{whole_coordinator}
use meta_harness.Samples.LadderRuns.{restored}
use meta_harness.Samples.CommitRuns.{directory}

abbrev settle_host : SettleHost Copy
settle_host = record {
  git = one_file;
  now = λ w. "t1";
  archive_attempt = λ r. (ok tt, r);
  readable = λ d. true;
  state_steps = λ r. ok (arr nil);
  bounded_v2_report = λ s. s;
}

abbrev abandoned : Abandoned
abandoned = record {
  step_id = "S01";
  primary = some "a";
  cycle = 1;
  failure = record restored { profile_id = some "b" };
  detail = some "red";
  usage = null;
  green = record { tree = "t0"; status = []; ownership = home };
  branch_ref = "refs/heads/run";
  parent_sha = "c0";
}

rollback_code_test : rollback_code "RESUME_REQUIRES_OPERATOR" ≡ ok "ROLLBACK_FAILED"
unfolding rollback_code whole_coordinator whole_store
rollback_code_test = refl

distinct_test : distinct [] (str "a" ∷ null ∷ str "a" ∷ []) ≡ ok (str "a" ∷ null ∷ [])
unfolding distinct
distinct_test = refl

-- What the failed step leaves, from an edited worktree.
abbrev continued : RunDir × Copy
continued = (mark_failed_continue settle_host abandoned (directory, edited)).1

mark_failed_continue-IsContinued_example : IsContinued settle_host abandoned continued
unfolding mark_failed_continue whole_attempt whole_store whole_coordinator
mark_failed_continue-IsContinued_example =
    mark_failed_continue-IsContinued settle_host abandoned (directory, edited) continued refl

abbrev failed_record : Value
failed_record = obj (field "id" (str "S01") (field "status" (str "FAILED_CONTINUED") end))

-- The step `S02` depends on `S01`.
abbrev skipped : RunDir × Copy
skipped = (skip_dependent settle_host "S02" (some "S01") failed_record (directory, clean)).1

skip_dependent-IsSkipped_example :
    IsSkipped settle_host "S02" (some "S01") failed_record (directory, clean) skipped
unfolding skip_dependent whole_store
skip_dependent-IsSkipped_example =
    skip_dependent-IsSkipped settle_host "S02" (some "S01") failed_record (directory, clean) skipped
      refl
