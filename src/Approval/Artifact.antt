-- ===== src/Approval/Artifact.antt =====
-- approval.py: `write_plan_approval`, which never replaces a decision, and `read_plan_approval`.
use meta_harness.Common.{
  ℕ, String, Bool, true, false, not, ◌&&◌, ◌||◌, Option, none, some, ◌==◌, nat_eq, if◌then◌else◌,
  is_some,
}
use meta_harness.Common.Outcome.{Outcome, ok, raised, ◌>>=◌, ◌>>◌, refuse_if}
use meta_harness.Common.Names.{same_text}
use meta_harness.Json.{
  pos, Value, null, str, int, obj, Fields, end, field, get, has_key, put, get_in, opt_str,
}
use meta_harness.Checkpoint.{File, missing, unreadable, bytes}
use meta_harness.Approval.Identity.{
  ApprovalError, authority_unreadable, authority_mismatch, already_exists, approval_unreadable,
  undecodable, not_an_object, bad_schema, missing_field, no_authority_hash, standalone_with_hash,
  artifact_missing, artifact_mismatch, wrong_identity, bad_decision, ApprovalDecision,
  decision_value, decision_of_text, PlanIdentity, make_identity, PlanApproval, ApprovalValues,
  make_approval, RunFiles,
}

-- `payload[field] = value`, unless the value is `None`
unfoldable pub put_some : Fields → String → Option String → Fields
put_some d k none = d
put_some d k (some s) = put d k (str s)

-- The first assignment of `_approval_payload`.
unfoldable pub base_payload : PlanApproval → Fields
base_payload a = field "schema_version" (int (pos (if is_some a.checks_sha256 then 5 else 1))) (
    field "decision" (str (decision_value a.decision)) (
      field "raw_sha256" (str a.raw_sha256) (
        field "contract_sha256" (str a.contract_sha256)
          (field "created_at" (str a.created_at) (field "source" (str a.source) end)))))

-- `_approval_payload`
unfoldable pub approval_payload : PlanApproval → Fields
unfolding base_payload put_some
approval_payload a =
    let named =
      put_some
        (put_some (put_some (base_payload a) "execution_sha256" a.execution_sha256) "bundle_sha256"
          a.bundle_sha256)
        "checks_sha256" a.checks_sha256 in
    if is_some a.execution_sha256 || is_some a.bundle_sha256
    then put (put named "schema_version" (int (pos 5))) "checks_sha256" (opt_str a.checks_sha256)
    else named

unfoldable pub publish_at : File → Fields → RunFiles → Outcome ApprovalError (Unit {0}) × RunFiles
publish_at missing payload f = (ok tt, record f { approval = bytes (some (obj payload)) "" })
publish_at taken payload f = (raised already_exists, f)

-- `_publish_exclusive`: the link fails when the name is taken. The digest of the file is never read.
unfoldable pub publish_exclusive : Fields → RunFiles → Outcome ApprovalError (Unit {0}) × RunFiles
unfolding publish_at
publish_exclusive payload f = publish_at f.approval payload f

abbrev pub document : File → Value
document (bytes (some v) sha) = v
document f = null

-- `stored_checks is not None and stored_checks != authority_sha256`
abbrev pub disagrees : Value → String → Bool
disagrees null sha = false
disagrees (str s) sha = not (s == sha)
disagrees v sha = true

-- The identity that is approved: it names the check authority of the run.
unfoldable pub with_authority : PlanIdentity → RunFiles → Outcome ApprovalError PlanIdentity
unfolding make_identity
with_authority i f = if is_some i.checks_sha256 then ok i else elim f.authority [
  | missing ↦ ok i
  | unreadable ↦ raised authority_unreadable
  | bytes v sha ↦ do
    refuse_if
        (disagrees (get_in (get_in (document f.state_file) "plan_identity") "checks_sha256") sha)
        authority_mismatch
    make_identity (str i.raw_sha256) (str i.contract_sha256) (opt_str i.bundle_sha256)
        (opt_str i.execution_sha256) (str sha)
]

unfoldable pub values_of : PlanIdentity → String → String → ApprovalValues
values_of i created source = record {
  raw = str i.raw_sha256;
  contract = str i.contract_sha256;
  execution = opt_str i.execution_sha256;
  bundle = opt_str i.bundle_sha256;
  checks = opt_str i.checks_sha256;
  created = str created;
  source = str source;
}

-- The approval that `write_plan_approval` makes.
unfoldable pub approval_of :
    String
    → ApprovalDecision
    → PlanIdentity
    → String
    → RunFiles
    → Outcome ApprovalError PlanApproval
unfolding with_authority values_of
approval_of now decision identity source f = do
  i ← with_authority identity f
  make_approval decision (values_of i now source)

abbrev pub publish_made :
    RunFiles → Outcome ApprovalError PlanApproval → Outcome ApprovalError (Unit {0}) × RunFiles
publish_made f (raised e) = (raised e, f)
publish_made f (ok a) = publish_exclusive (approval_payload a) f

-- `write_plan_approval`
unfoldable pub write_plan_approval :
    String
    → ApprovalDecision
    → PlanIdentity
    → String
    → RunFiles
    → Outcome ApprovalError (Unit {0}) × RunFiles
unfolding approval_of
write_plan_approval now decision identity source f =
    publish_made f (approval_of now decision identity source f)

-- `schema_version not in (1, 5)`, of an integer
unfoldable pub schema_of : Value → Outcome ApprovalError ℕ
schema_of (int (pos n)) = if nat_eq n 1 || nat_eq n 5 then ok n else raised bad_schema
schema_of v = raised bad_schema

unfoldable pub lacks_required : Fields → Bool
lacks_required d =
    not (has_key d "decision")
    || (not (has_key d "raw_sha256")
        || (not (has_key d "contract_sha256")
            || (not (has_key d "created_at") || not (has_key d "source"))))

abbrev names_authority : Fields → Bool
names_authority d =
    has_key d "execution_sha256" || (has_key d "bundle_sha256" || has_key d "checks_sha256")

unfoldable pub decision_in : Value → Outcome ApprovalError ApprovalDecision
decision_in v = elim (decision_of_text v) [ some d ↦ ok d | none ↦ raised bad_decision ]

-- The approval that a payload holds.
unfoldable pub parse_approval : Fields → Outcome ApprovalError PlanApproval
unfolding schema_of lacks_required decision_in make_approval
parse_approval d = do
  version ← schema_of (get d "schema_version")
  refuse_if (lacks_required d) missing_field
  refuse_if (nat_eq version 5 && not (has_key d "checks_sha256")) no_authority_hash
  refuse_if (nat_eq version 1 && names_authority d) standalone_with_hash
  decision ← decision_in (get d "decision")
  make_approval decision (record {
    raw = get d "raw_sha256";
    contract = get d "contract_sha256";
    execution = get d "execution_sha256";
    bundle = get d "bundle_sha256";
    checks = get d "checks_sha256";
    created = get d "created_at";
    source = get d "source";
  })

-- One round of the loop over the artifacts.
unfoldable pub check_artifact : Option String → File → Outcome ApprovalError (Unit {0})
check_artifact none f = ok tt
check_artifact (some digest) (bytes v sha) = refuse_if (not (sha == digest)) artifact_mismatch
check_artifact (some digest) f = raised artifact_missing

-- `expected is not None and approved != expected`
abbrev pub departs : Option String → Option String → Bool
departs none approved = false
departs (some s) approved = not (same_text approved (some s))

-- The last test of `read_plan_approval`.
unfoldable pub differs : PlanIdentity → PlanApproval → Bool
differs expected a =
    not (a.raw_sha256 == expected.raw_sha256)
    || (not (a.contract_sha256 == expected.contract_sha256)
        || (departs expected.execution_sha256 a.execution_sha256
            || (departs expected.bundle_sha256 a.bundle_sha256
                || (departs expected.checks_sha256 a.checks_sha256
                    || ((not (is_some expected.bundle_sha256) && is_some a.bundle_sha256)
                        || (not (is_some expected.checks_sha256) && is_some a.checks_sha256))))))

-- What is checked of a parsed approval.
unfoldable pub verify_approval :
    PlanIdentity → RunFiles → PlanApproval → Outcome ApprovalError PlanApproval
unfolding check_artifact differs
verify_approval expected f a = do
  check_artifact a.execution_sha256 f.execution
  check_artifact a.bundle_sha256 f.bundle
  check_artifact a.checks_sha256 f.authority
  refuse_if (differs expected a) wrong_identity
  ok a

unfoldable pub read_document :
    PlanIdentity → RunFiles → Value → Outcome ApprovalError (Option PlanApproval)
unfolding parse_approval verify_approval
read_document expected f (obj d) = do
  a ← parse_approval d
  checked ← verify_approval expected f a
  ok (some checked)
read_document expected f v = raised not_an_object

unfoldable pub read_file :
    File → PlanIdentity → RunFiles → Outcome ApprovalError (Option PlanApproval)
unfolding read_document
read_file missing expected f = ok none
read_file unreadable expected f = raised approval_unreadable
read_file (bytes none sha) expected f = raised undecodable
read_file (bytes (some v) sha) expected f = read_document expected f v

-- `read_plan_approval`
unfoldable pub read_plan_approval :
    PlanIdentity → RunFiles → Outcome ApprovalError (Option PlanApproval)
unfolding read_file
read_plan_approval expected f = read_file f.approval expected f
