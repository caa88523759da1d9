-- ===== src/Approval/Identity.antt =====
-- approval.py: the identity of a plan, the approval record, and the checks of their constructors.
use meta_harness.Common.{String, Bool, not, ◌||◌, Option, none, some, ◌==◌, if◌then◌else◌}
use meta_harness.Common.Outcome.{Outcome, ok, raised, ◌>>=◌, ◌>>◌, refuse_if, map_raised}
use meta_harness.Common.Text.{is_blank}
use meta_harness.Common.Text.Hex.{is_sha256}
use meta_harness.Json.{Value, null, str, obj, get, has_key}
use meta_harness.Checkpoint.{File, missing, unreadable, bytes}

-- The places that raise an `ApprovalError`.
pub data ApprovalError : Type 0 where
  bad_sha256 bad_decision bad_created_at bad_source identity_invalid : ApprovalError
  plan_unreadable artifact_unreadable : ApprovalError
  authority_unreadable authority_mismatch already_exists : ApprovalError
  approval_unreadable undecodable not_an_object bad_schema missing_field : ApprovalError
  no_authority_hash standalone_with_hash artifact_missing artifact_mismatch wrong_identity :
      ApprovalError

pub data ApprovalDecision : Type 0 where
  approve reject : ApprovalDecision

unfoldable pub decision_value : ApprovalDecision → String
decision_value approve = "APPROVE"
decision_value reject = "REJECT"

-- `ApprovalDecision(value)`
unfoldable pub decision_of_text : Value → Option ApprovalDecision
decision_of_text (str s) =
    if s == "APPROVE" then some approve else if s == "REJECT" then some reject else none
decision_of_text v = none

pub record PlanIdentity : Type 0 where
  pub raw_sha256 : String
  pub contract_sha256 : String
  pub bundle_sha256 : Option String
  pub execution_sha256 : Option String
  pub checks_sha256 : Option String

pub record PlanApproval : Type 0 where
  pub decision : ApprovalDecision
  pub raw_sha256 : String
  pub contract_sha256 : String
  pub created_at : String
  pub source : String
  pub bundle_sha256 : Option String
  pub execution_sha256 : Option String
  pub checks_sha256 : Option String

-- `_validate_sha256`
unfoldable pub validate_sha256 : Value → Outcome ApprovalError String
validate_sha256 (str s) = if is_sha256 s then ok s else raised bad_sha256
validate_sha256 v = raised bad_sha256

-- `if value is not None: _validate_sha256(value)`
unfoldable pub validate_optional : Value → Outcome ApprovalError (Option String)
unfolding validate_sha256
validate_optional null = ok none
validate_optional v = do s ← validate_sha256 v; ok (some s)

-- `PlanIdentity(raw, contract, bundle, execution, checks)`
unfoldable pub make_identity :
    Value → Value → Value → Value → Value → Outcome ApprovalError PlanIdentity
unfolding validate_sha256 validate_optional
make_identity raw contract bundle execution checks = do
  r ← validate_sha256 raw
  c ← validate_sha256 contract
  e ← validate_optional execution
  b ← validate_optional bundle
  k ← validate_optional checks
  ok (record {
    raw_sha256 = r;
    contract_sha256 = c;
    bundle_sha256 = b;
    execution_sha256 = e;
    checks_sha256 = k;
  })

-- `plan_identity_from_mapping`
unfoldable pub plan_identity_from_mapping : Value → Outcome ApprovalError PlanIdentity
unfolding make_identity
plan_identity_from_mapping (obj d) = do
  refuse_if (not (has_key d "raw_sha256") || not (has_key d "contract_sha256")) identity_invalid
  map_raised (λ e. identity_invalid)
      (make_identity (get d "raw_sha256") (get d "contract_sha256") (get d "bundle_sha256")
        (get d "execution_sha256") (get d "checks_sha256"))
plan_identity_from_mapping v = raised identity_invalid

unfoldable pub validate_created : Value → Outcome ApprovalError String
validate_created (str s) = if is_blank s then raised bad_created_at else ok s
validate_created v = raised bad_created_at

-- `_SOURCES`
unfoldable pub is_source : String → Bool
is_source s = s == "cli" || (s == "web-ui" || s == "test")

unfoldable pub validate_source : Value → Outcome ApprovalError String
unfolding is_source
validate_source (str s) = if is_source s then ok s else raised bad_source
validate_source v = raised bad_source

-- The values of the fields of an approval.
pub record ApprovalValues : Type 0 where
  pub raw : Value
  pub contract : Value
  pub execution : Value
  pub bundle : Value
  pub checks : Value
  pub created : Value
  pub source : Value

-- `PlanApproval(decision=..., ...)`
unfoldable pub make_approval :
    ApprovalDecision → ApprovalValues → Outcome ApprovalError PlanApproval
unfolding validate_sha256 validate_optional validate_created validate_source
make_approval decision v = do
  r ← validate_sha256 v.raw
  c ← validate_sha256 v.contract
  e ← validate_optional v.execution
  b ← validate_optional v.bundle
  k ← validate_optional v.checks
  t ← validate_created v.created
  s ← validate_source v.source
  ok (record {
    decision = decision;
    raw_sha256 = r;
    contract_sha256 = c;
    created_at = t;
    source = s;
    bundle_sha256 = b;
    execution_sha256 = e;
    checks_sha256 = k;
  })

-- The files of a run that an approval is about, at one iteration.
pub record RunFiles : Type 0 where
  pub approval : File
  pub authority : File
  pub execution : File
  pub bundle : File
  pub raw_plan : File
  pub contract : File
  pub state_file : File

abbrev digest_of : File → ApprovalError → Outcome ApprovalError String
digest_of (bytes v sha) e = ok sha
digest_of f e = raised e

-- `if path.exists(): sha256(path.read_bytes())`
abbrev optional_digest : File → Outcome ApprovalError (Option String)
optional_digest missing = ok none
optional_digest unreadable = raised artifact_unreadable
optional_digest (bytes v sha) = ok (some sha)

-- `compute_plan_identity_from_run`; the digests that hashlib computes are SHA-256 texts.
unfoldable pub compute_plan_identity_from_run : RunFiles → Outcome ApprovalError PlanIdentity
compute_plan_identity_from_run f = do
  raw ← digest_of f.raw_plan plan_unreadable
  contract ← digest_of f.contract plan_unreadable
  execution ← optional_digest f.execution
  bundle ← optional_digest f.bundle
  checks ← optional_digest f.authority
  ok (record {
    raw_sha256 = raw;
    contract_sha256 = contract;
    bundle_sha256 = bundle;
    execution_sha256 = execution;
    checks_sha256 = checks;
  })
