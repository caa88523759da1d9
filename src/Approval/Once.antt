-- ===== src/Approval/Once.antt =====
-- approval.py: a decision is written once, and read back as it was written.
use meta_harness.Common.{String, ◌≡◌, refl, sym, ap, ◌∙◌, Option, none, some, arith, inl, inr}
use meta_harness.Common.Outcome.{Outcome, ok, raised, bind-ok, ok-injective, Outcome-cases}
use meta_harness.Json.{
  Value, null, str, bool, int, float, obj, arr, Fields, get, has_key, put, opt_str,
}
use meta_harness.Checkpoint.{File, missing, unreadable, bytes}
use meta_harness.Approval.Identity.{
  ApprovalError, already_exists, ApprovalDecision, approve, reject, decision_value,
  decision_of_text, PlanIdentity, PlanApproval, validate_sha256, validate_optional,
  validate_created, validate_source, ApprovalValues, make_approval, RunFiles,
}
use meta_harness.Approval.Artifact.{
  put_some, base_payload, approval_payload, publish_at, publish_exclusive, approval_of,
  write_plan_approval, schema_of, lacks_required, decision_in, parse_approval, publish_made,
}

-- The values of the fields of an approval.
abbrev pub fields_of : PlanApproval → ApprovalValues
fields_of a = record {
  raw = str a.raw_sha256;
  contract = str a.contract_sha256;
  execution = opt_str a.execution_sha256;
  bundle = opt_str a.bundle_sha256;
  checks = opt_str a.checks_sha256;
  created = str a.created_at;
  source = str a.source;
}

validate_sha256_stable :
    (v : Value) {s : String} → validate_sha256 v ≡ ok s → validate_sha256 (str s) ≡ ok s
unfolding validate_sha256
validate_sha256_stable (str t) h = ground arith
validate_sha256_stable v h = cc

validate_optional_stable :
    (v : Value) {o : Option String}
    → validate_optional v ≡ ok o
    → validate_optional (opt_str o) ≡ ok o
unfolding validate_optional validate_sha256
validate_optional_stable null {o = none} h = refl
validate_optional_stable null {o = some s} h = cc
validate_optional_stable (str t) {o = none} h = ground arith
validate_optional_stable (str t) {o = some s} h = ground arith
validate_optional_stable (bool b) h = cc
validate_optional_stable (int n) h = cc
validate_optional_stable (float b s) h = cc
validate_optional_stable (obj d) h = cc
validate_optional_stable (arr d) h = cc

validate_created_stable :
    (v : Value) {s : String} → validate_created v ≡ ok s → validate_created (str s) ≡ ok s
unfolding validate_created
validate_created_stable (str t) h = ground arith
validate_created_stable v h = cc

validate_source_stable :
    (v : Value) {s : String} → validate_source v ≡ ok s → validate_source (str s) ≡ ok s
unfolding validate_source
validate_source_stable (str t) h = ground arith
validate_source_stable v h = cc

-- An approval that was made is made again of its own fields.
make_approval_stable :
    (d : ApprovalDecision) (v : ApprovalValues) {a : PlanApproval}
    → make_approval d v ≡ ok a
    → (a.decision ≡ d) × (make_approval a.decision (fields_of a) ≡ ok a)
unfolding make_approval
make_approval_stable d v {a} h =
    let (r, p1, k1) = bind-ok (validate_sha256 v.raw) _ h in
    let (c, p2, k2) = bind-ok (validate_sha256 v.contract) _ k1 in
    let (e, p3, k3) = bind-ok (validate_optional v.execution) _ k2 in
    let (b, p4, k4) = bind-ok (validate_optional v.bundle) _ k3 in
    let (k, p5, k5) = bind-ok (validate_optional v.checks) _ k4 in
    let (t, p6, k6) = bind-ok (validate_created v.created) _ k5 in
    let (s, p7, k7) = bind-ok (validate_source v.source) _ k6 in
    rw (← ok-injective k7) (
      refl,
      rw
          (
            validate_sha256_stable v.raw p1,
            validate_sha256_stable v.contract p2,
            validate_optional_stable v.execution p3,
            validate_optional_stable v.bundle p4,
            validate_optional_stable v.checks p5,
            validate_created_stable v.created p6,
            validate_source_stable v.source p7,
          )
          refl,
    )

-- Parsing a payload makes an approval of the fields that were printed.
parse-approval_payload :
    (d : ApprovalDecision) (r c t s : String) (b e k : Option String)
    → parse_approval (
        approval_payload (record {
          decision = d;
          raw_sha256 = r;
          contract_sha256 = c;
          created_at = t;
          source = s;
          bundle_sha256 = b;
          execution_sha256 = e;
          checks_sha256 = k;
        }))
      ≡ make_approval d (record {
        raw = str r;
        contract = str c;
        execution = opt_str e;
        bundle = opt_str b;
        checks = opt_str k;
        created = str t;
        source = str s;
      })
unfolding parse_approval approval_payload base_payload put_some get has_key put schema_of
    lacks_required decision_in decision_of_text decision_value
parse-approval_payload approve r c t s none none none = refl
parse-approval_payload approve r c t s none none (some k) = refl
parse-approval_payload approve r c t s none (some e) none = refl
parse-approval_payload approve r c t s none (some e) (some k) = refl
parse-approval_payload approve r c t s (some b) none none = refl
parse-approval_payload approve r c t s (some b) none (some k) = refl
parse-approval_payload approve r c t s (some b) (some e) none = refl
parse-approval_payload approve r c t s (some b) (some e) (some k) = refl
parse-approval_payload reject r c t s none none none = refl
parse-approval_payload reject r c t s none none (some k) = refl
parse-approval_payload reject r c t s none (some e) none = refl
parse-approval_payload reject r c t s none (some e) (some k) = refl
parse-approval_payload reject r c t s (some b) none none = refl
parse-approval_payload reject r c t s (some b) none (some k) = refl
parse-approval_payload reject r c t s (some b) (some e) none = refl
parse-approval_payload reject r c t s (some b) (some e) (some k) = refl

-- Every approval that the constructor accepts is read back from its payload, whichever of its three
-- optional digests it names and whichever schema it is printed in.
pub parse-make_approval :
    (d : ApprovalDecision) (v : ApprovalValues) {a : PlanApproval}
    → make_approval d v ≡ ok a
    → parse_approval (approval_payload a) ≡ ok a
parse-make_approval d v {a} h =
    parse-approval_payload a.decision a.raw_sha256 a.contract_sha256 a.created_at a.source
      a.bundle_sha256 a.execution_sha256 a.checks_sha256
    ∙ (make_approval_stable d v h).1

publish_at-ok :
    (file : File) (payload : Fields) (f : RunFiles) {u : Unit {0}} {f' : RunFiles}
    → publish_at file payload f ≡ (ok u, f')
    → f' ≡ record f { approval = bytes (some (obj payload)) "" }
unfolding publish_at
publish_at-ok missing payload f h = sym (ap (λ p. p.1) h)
publish_at-ok unreadable payload f h = cc
publish_at-ok (bytes v sha) payload f h = cc

-- What a write that succeeded has done: it published the payload of the approval that it made.
module _ (now : String) (d : ApprovalDecision) (i : PlanIdentity) (source : String)
    (f : RunFiles) where
  pub write_plan_approval-inversion :
      {u : Unit {0}} {f' : RunFiles}
      → write_plan_approval now d i source f ≡ (ok u, f')
      → (a : PlanApproval) × (approval_of now d i source f ≡ ok a)
        × (f' ≡ record f { approval = bytes (some (obj (approval_payload a))) "" })
  unfolding write_plan_approval publish_exclusive
  write_plan_approval-inversion h = elim (Outcome-cases (approval_of now d i source f)) [
    | inr (e, p) ↦ cc (rw p at h)
    | inl (a, p) ↦ (a, p, publish_at-ok f.approval (approval_payload a) f (rw p at h))
  ]

publish_made-taken :
    (o : Outcome ApprovalError PlanApproval) (f : RunFiles) (v : Option Value) (sha : String)
    → f.approval ≡ bytes v sha
    → (e : ApprovalError) × (publish_made f o ≡ (raised e, f))
unfolding publish_exclusive publish_at
publish_made-taken (raised e) f v sha h = (e, refl)
publish_made-taken (ok a) f v sha h = (already_exists, rw h refl)

-- A decision is written once: after a write that succeeded every further write raises and leaves
-- the files as they are, whatever its decision, its identity and its source.
pub write_plan_approval-once :
    (now later : String) (d d' : ApprovalDecision) (i i' : PlanIdentity) (source source' : String)
    (f f' : RunFiles)
    → write_plan_approval now d i source f ≡ (ok tt, f')
    → (e : ApprovalError) × (write_plan_approval later d' i' source' f' ≡ (raised e, f'))
unfolding write_plan_approval
write_plan_approval-once now later d d' i i' source source' f f' h =
    let (a, made, e) = write_plan_approval-inversion now d i source f h in
    publish_made-taken (approval_of later d' i' source' f') f' (some (obj (approval_payload a))) ""
      (ap (λ x. x.approval) e)
