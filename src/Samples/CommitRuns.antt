-- ===== src/Samples/CommitRuns.antt =====
-- A step that is accepted, and the records of accepted steps.
use meta_harness.Common.{
  String, Bool, ◌≡◌, refl, true, none, some, List, [], ◌∷◌, ◌==◌, if◌then◌else◌, inl,
}
use meta_harness.Common.Outcome.{Outcome, ok}
use meta_harness.Json.{Value, null, str, Fields, obj, arr, end, field, nil, cons, get}
use meta_harness.Attempt.Audit.{GitFailure}
use meta_harness.Contract.Step.{ImplementationStep, mechanical}
use meta_harness.Commit.Safety.{
  GateRequest, CommitSafetyResult, commit_safety_gate, StepVerification, from_payload,
  verification_payload,
}
use meta_harness.Commit.Record.{
  unresolved_deferred_verifications, assert_deferred_verifications_resolved,
}
use meta_harness.Commit.Gated.{IsSafe, commit_safety_gate-IsSafe}
use meta_harness.Commit.ReadBack.{from_payload-verification_payload}
use meta_harness.Commit.Settled.{IsSettled, assert_deferred_verifications_resolved-IsSettled}
use meta_harness.Steps.Finalize.{RunDir, Committed, finalize_accepted_step}
use meta_harness.Steps.Recorded.{
  IsRecorded, SameField, chain_again, finalize_accepted_step-IsRecorded,
  finalize_accepted_step_again,
}
use meta_harness.Steps.Authority.{AcceptHost, Acceptance, approved_step_authority}
use meta_harness.Steps.Accept.{accept_v2_step_tree}
use meta_harness.Steps.Accepted.{IsAccepted, accept_v2_step_tree-IsAccepted}
use meta_harness.Samples.AttemptRuns.{Copy, one_file, whole_attempt}
use meta_harness.Samples.StoreRuns.{whole_store}
use meta_harness.Samples.CoordinatorRuns.{disk}
use meta_harness.Samples.LadderRuns.{done}

abbrev frozen : Copy
frozen = record { files = "t1"; staged = "t1" }

abbrev tree_of : String → Copy → Outcome GitFailure String
tree_of sha w = ok (if sha == "c0" then "t0" else "t1")

abbrev gate_of : GateRequest
gate_of = record {
  tree_sha = "t1";
  parent_sha = "c0";
  mutable_scope = "f" ∷ [];
  verification_status = "passed";
  deferred_reason = none;
  dependent_step_ids = [];
  deferred_command_or_contract = none;
  security_passed = true;
}

abbrev safe : CommitSafetyResult
safe = record {
  parent_sha = "c0";
  tree_sha = "t1";
  changed_paths = "f" ∷ [];
  verification_status = "passed";
  deferred = none;
}

commit_safety_gate-IsSafe_example : IsSafe one_file tree_of gate_of frozen safe
unfolding commit_safety_gate whole_attempt
commit_safety_gate-IsSafe_example = commit_safety_gate-IsSafe one_file tree_of gate_of frozen refl

abbrev deferral : Fields
deferral = field "status" (str "deferred") (
    field "deferred_reason" (str "needs S02") (
      field "dependent_step_ids" (arr (cons (str "S02") nil))
        (field "deferred_command_or_contract" (str "make test") end)))

abbrev postponed : StepVerification
postponed = record {
  status = "deferred";
  deferred = some (record {
    reason = "needs S02";
    dependent_step_ids = "S02" ∷ [];
    command_or_contract = "make test";
  });
}

from_payload-verification_payload_example :
    from_payload (obj (verification_payload postponed)) ≡ ok postponed
unfolding from_payload get
from_payload-verification_payload_example =
    from_payload-verification_payload (obj deferral) {r = postponed} refl

abbrev first_row : Fields
first_row = field "step_id" (str "S01") (
    field "verification_status" (str "deferred")
      (field "dependent_step_ids" (arr (cons (str "S02") nil)) end))

abbrev rows : List Value
rows =
    obj first_row
    ∷ null
    ∷ obj (field "step_id" (str "S02") (field "verification_status" (str "passed") end))
    ∷ []

unresolved_test : unresolved_deferred_verifications (obj first_row ∷ []) ≡ ok (first_row ∷ [])
unfolding unresolved_deferred_verifications get
unresolved_test = refl

assert_deferred_verifications_resolved-IsSettled_example : IsSettled rows first_row
unfolding assert_deferred_verifications_resolved get
assert_deferred_verifications_resolved-IsSettled_example =
    assert_deferred_verifications_resolved-IsSettled rows first_row (inl refl) refl refl

abbrev step : ImplementationStep
step = record {
  id = "S01";
  title = "one";
  execution_class = mechanical;
  depends_on = none;
  context = "";
  read_set = "f" ∷ [];
  write_set = "f" ∷ [];
  create_set = [];
  delete_set = [];
  instructions = "";
  interfaces = "";
  examples = "";
  tests = "";
  pitfalls = "";
  done_when = "";
  verify = "";
}

abbrev pub directory : RunDir
directory = record { disk = disk 0; step_record = null; accepted_chain = null; acceptance = null }

abbrev commit : Committed
commit = record {
  step_id = "S01";
  commit_sha = "c1";
  parent_sha = "c0";
  tree_after = "t1";
  verification_status = "passed";
  row = field "commit_sha" (str "c1") (field "step_id" (str "S01") end);
  authority_sha256 = "d0";
  contract_sha256 = "d1";
  next_step = none;
}

abbrev small : Value → Bool
small v = true

-- The directory behind the first and the second record of the commit.
abbrev recorded : RunDir
recorded = (finalize_accepted_step small "t1" commit directory).1

abbrev recorded_again : RunDir
recorded_again = (finalize_accepted_step small "t2" commit recorded).1

finalize_accepted_step-IsRecorded_example : IsRecorded commit recorded
unfolding finalize_accepted_step whole_store
finalize_accepted_step-IsRecorded_example =
    finalize_accepted_step-IsRecorded small "t1" commit directory recorded refl

finalize_accepted_step_again_example :
    (recorded_again.accepted_chain ≡ chain_again small commit recorded.accepted_chain)
    × SameField "accepted_steps" recorded recorded_again
    × SameField "accepted_commits" recorded recorded_again
unfolding finalize_accepted_step whole_store
finalize_accepted_step_again_example =
    finalize_accepted_step_again small "t1" "t2" commit directory recorded recorded_again refl refl
      refl

abbrev accept_host : AcceptHost Copy
accept_host = record {
  git = one_file;
  resolve_tree = tree_of;
  commit_parents = λ sha w. ok [];
  write_diff = λ w. (ok tt, w);
  commit_step_tree = λ tree parent id title w. (ok "c1", w);
  step_verification = λ o id future. ok (record { status = "passed"; deferred = none });
  canonical_sha256 = λ fields. "d2";
  now = λ w. "t1";
  fits = small;
}

abbrev acceptance : Acceptance
acceptance = record {
  authority = approved_step_authority step "d0";
  outcome = done;
  parent_sha = "c0";
  future_step_ids = "S02" ∷ [];
  verification = none;
}

abbrev accepted : RunDir × Copy
accepted = (accept_v2_step_tree accept_host acceptance (directory, frozen)).1

accept_v2_step_tree-IsAccepted_example :
    IsAccepted accept_host acceptance (directory, frozen) (some "c1") accepted
unfolding accept_v2_step_tree whole_attempt whole_store commit_safety_gate finalize_accepted_step
    approved_step_authority
accept_v2_step_tree-IsAccepted_example =
    accept_v2_step_tree-IsAccepted accept_host acceptance (directory, frozen) (some "c1") accepted
      refl
