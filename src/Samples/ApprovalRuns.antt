-- ===== src/Samples/ApprovalRuns.antt =====
-- A decision on a plan, written and read.
use meta_harness.Common.{String, ◌≡◌, refl, Bool, true, false, Option, none, some, inl, inr}
use meta_harness.Common.Outcome.{ok, raised}
use meta_harness.Common.Text.{is_blank, is_space}
use meta_harness.Common.Text.Hex.{is_sha256}
use meta_harness.Json.{null, str, obj}
use meta_harness.Checkpoint.{missing, bytes}
use meta_harness.Approval.Identity.{
  ApprovalError, approve, reject, PlanIdentity, PlanApproval, RunFiles, ApprovalValues,
  make_approval, validate_sha256,
}
use meta_harness.Approval.Artifact.{
  with_authority, approval_of, approval_payload, write_plan_approval, read_plan_approval,
  publish_exclusive, parse_approval,
}
use meta_harness.Approval.Once.{write_plan_approval-once}
use meta_harness.Approval.Bound.{IsBound, read_plan_approval-IsBound}
use meta_harness.Approval.ReadBack.{read-write_plan_approval}

abbrev raw : String
raw = "aaaaaaaaaaaaaaaaaaaaaaaaaaaaaaaaaaaaaaaaaaaaaaaaaaaaaaaaaaaaaaaa"

abbrev checks : String
checks = "0123456789abcdef0123456789abcdef0123456789abcdef0123456789abcdef"

abbrev shown : PlanIdentity
shown = record {
  raw_sha256 = raw;
  contract_sha256 = raw;
  bundle_sha256 = none;
  execution_sha256 = none;
  checks_sha256 = none;
}

abbrev files : RunFiles
files = record {
  approval = missing;
  authority = bytes none checks;
  execution = missing;
  bundle = missing;
  raw_plan = bytes none raw;
  contract = bytes none raw;
  state_file = missing;
}

-- The identity that is approved names the check authority.
abbrev approved : PlanIdentity
approved = record shown { checks_sha256 = some checks }

abbrev approval : PlanApproval
approval = record {
  decision = approve;
  raw_sha256 = raw;
  contract_sha256 = raw;
  created_at = "t1";
  source = "cli";
  bundle_sha256 = none;
  execution_sha256 = none;
  checks_sha256 = some checks;
}

abbrev decided : RunFiles
decided = record files { approval = bytes (some (obj (approval_payload approval))) "" }

-- Opens the approvals.
unfoldable pub whole_approval : Unit {0}
unfolding write_plan_approval approval_of with_authority publish_exclusive
    meta_harness.Approval.Artifact.publish_at make_approval validate_sha256
    meta_harness.Approval.Identity.validate_optional meta_harness.Approval.Identity.validate_created
    meta_harness.Approval.Identity.validate_source meta_harness.Approval.Identity.is_source
    meta_harness.Approval.Identity.make_identity is_sha256 meta_harness.Common.Text.Hex.hex_run
    meta_harness.Common.Text.Hex.is_hex is_blank is_space meta_harness.Common.Text.lstrip
    meta_harness.Common.Text.rstrip meta_harness.Approval.Artifact.values_of
    meta_harness.Json.get_in read_plan_approval meta_harness.Approval.Artifact.read_file
    meta_harness.Approval.Artifact.read_document parse_approval
    meta_harness.Approval.Artifact.schema_of meta_harness.Approval.Artifact.lacks_required
    meta_harness.Approval.Artifact.decision_in meta_harness.Approval.Identity.decision_of_text
    meta_harness.Approval.Identity.decision_value approval_payload
    meta_harness.Approval.Artifact.base_payload meta_harness.Approval.Artifact.put_some
    meta_harness.Json.get meta_harness.Json.has_key meta_harness.Json.put
    meta_harness.Approval.Artifact.verify_approval meta_harness.Approval.Artifact.check_artifact
    meta_harness.Approval.Artifact.differs meta_harness.Common.Names.same_text
whole_approval = tt

written_test : write_plan_approval "t1" approve shown "cli" files ≡ (ok tt, decided)
unfolding whole_approval
written_test = refl

write_plan_approval-once_example :
    (e : ApprovalError) × (write_plan_approval "t2" reject shown "web-ui" decided
      ≡ (raised e, decided))
write_plan_approval-once_example =
    write_plan_approval-once "t1" "t2" approve reject shown shown "cli" "web-ui" files decided
      written_test

read-write_plan_approval_example :
    (a : PlanApproval) × (read_plan_approval approved decided ≡ ok (some a))
    × (a.decision ≡ approve)
unfolding whole_approval
read-write_plan_approval_example =
    read-write_plan_approval "t1" approve shown approved "cli" files decided written_test refl
      (inl refl) (inl refl) (inr (none, checks, refl, refl))

read_plan_approval-IsBound_example : IsBound approved decided approval
unfolding whole_approval
read_plan_approval-IsBound_example = read_plan_approval-IsBound approved decided approval refl
