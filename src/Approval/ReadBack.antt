-- ===== src/Approval/ReadBack.antt =====
-- approval.py: what `write_plan_approval` wrote is what `read_plan_approval` returns to a reader who
-- expects the identity that was approved.
use mathlib.Core.Path.{subst}
use meta_harness.Common.{
  String, ◌≡◌, refl, sym, ◌∙◌, false, not, ◌&&◌, Option, none, some, arith, eq_refl, is_some,
}
use meta_harness.Common.Outcome.{ok, bind-ok, ok-injective}
use meta_harness.Common.Names.{same_text}
use meta_harness.Json.{opt_str, str}
use meta_harness.Approval.Identity.{
  ApprovalDecision, PlanIdentity, PlanApproval, RunFiles, make_approval, validate_sha256,
  validate_optional, validate_created, validate_source,
}
use meta_harness.Approval.Artifact.{
  departs, differs, verify_approval, read_document, read_file, read_plan_approval, with_authority,
  values_of, approval_of, write_plan_approval,
}
use meta_harness.Approval.Once.{parse-make_approval, write_plan_approval-inversion}
use meta_harness.Approval.Bound.{Digests, Digests-check_artifact}

validate_sha256-str : (s : String) {t : String} → validate_sha256 (str s) ≡ ok t → t ≡ s
unfolding validate_sha256
validate_sha256-str s h = ground arith

validate_optional-str :
    (o : Option String) {p : Option String} → validate_optional (opt_str o) ≡ ok p → p ≡ o
unfolding validate_optional validate_sha256
validate_optional-str none h = sym (ok-injective h)
validate_optional-str (some s) {p = none} h = ground arith
validate_optional-str (some s) {p = some t} h = ground arith

-- The digests of an approval are those of an identity.
record Carries (j : PlanIdentity) (d : ApprovalDecision) (a : PlanApproval) : Type 0 where
  decision : a.decision ≡ d
  raw : a.raw_sha256 ≡ j.raw_sha256
  contract : a.contract_sha256 ≡ j.contract_sha256
  execution : a.execution_sha256 ≡ j.execution_sha256
  bundle : a.bundle_sha256 ≡ j.bundle_sha256
  checks : a.checks_sha256 ≡ j.checks_sha256

make_approval-Carries :
    (now source : String) (d : ApprovalDecision) (j : PlanIdentity) {a : PlanApproval}
    → make_approval d (values_of j now source) ≡ ok a
    → Carries j d a
unfolding make_approval values_of
make_approval-Carries now source d j h =
    let (r, p1, k1) = bind-ok (validate_sha256 (str j.raw_sha256)) _ h in
    let (c, p2, k2) = bind-ok (validate_sha256 (str j.contract_sha256)) _ k1 in
    let (e, p3, k3) = bind-ok (validate_optional (opt_str j.execution_sha256)) _ k2 in
    let (b, p4, k4) = bind-ok (validate_optional (opt_str j.bundle_sha256)) _ k3 in
    let (k, p5, k5) = bind-ok (validate_optional (opt_str j.checks_sha256)) _ k4 in
    let (t, p6, k6) = bind-ok (validate_created (str now)) _ k5 in
    let (s, p7, k7) = bind-ok (validate_source (str source)) _ k6 in
    subst (Carries j d) (ok-injective k7) (record {
      decision = refl;
      raw = validate_sha256-str j.raw_sha256 p1;
      contract = validate_sha256-str j.contract_sha256 p2;
      execution = validate_optional-str j.execution_sha256 p3;
      bundle = validate_optional-str j.bundle_sha256 p4;
      checks = validate_optional-str j.checks_sha256 p5;
    })

departs_self : (o : Option String) → departs o o ≡ false
unfolding same_text
departs_self none = refl
departs_self (some s) = rw (eq_refl s) refl

added_self : (o : Option String) → (not (is_some o) && is_some o) ≡ false
added_self none = refl
added_self (some s) = refl

Carries-verify :
    (j : PlanIdentity) (d : ApprovalDecision) (a : PlanApproval) (f : RunFiles)
    → Carries j d a
    → Digests j.execution_sha256 f.execution
    → Digests j.bundle_sha256 f.bundle
    → Digests j.checks_sha256 f.authority
    → verify_approval j f a ≡ ok a
unfolding verify_approval differs
Carries-verify j d a f c e b k =
    rw
      (
        c.execution,
        c.bundle,
        c.checks,
        c.raw,
        c.contract,
        Digests-check_artifact j.execution_sha256 f.execution e,
        Digests-check_artifact j.bundle_sha256 f.bundle b,
        Digests-check_artifact j.checks_sha256 f.authority k,
        eq_refl j.raw_sha256,
        eq_refl j.contract_sha256,
        departs_self j.execution_sha256,
        departs_self j.bundle_sha256,
        departs_self j.checks_sha256,
        added_self j.bundle_sha256,
        added_self j.checks_sha256,
      )
      refl

-- A decision that was written is read back by a reader who expects the approved identity, as long as
-- the artifacts have the digests that this identity names.
pub read-write_plan_approval :
    (now : String) (d : ApprovalDecision) (i j : PlanIdentity) (source : String) (f f' : RunFiles)
    → write_plan_approval now d i source f ≡ (ok tt, f')
    → with_authority i f ≡ ok j
    → Digests j.execution_sha256 f.execution
    → Digests j.bundle_sha256 f.bundle
    → Digests j.checks_sha256 f.authority
    → (a : PlanApproval) × (read_plan_approval j f' ≡ ok (some a)) × (a.decision ≡ d)
unfolding read_plan_approval read_file read_document approval_of
read-write_plan_approval now d i j source f f' h named e b k =
    let (a, made, there) = write_plan_approval-inversion now d i source f h in
    let (j', p, q) = bind-ok (with_authority i f) _ made in
    let same : j' ≡ j = ok-injective (sym p ∙ named) in
    let built : make_approval d (values_of j now source) ≡ ok a =
      subst (λ x. make_approval d (values_of x now source) ≡ ok a) same q in
    let c = make_approval-Carries now source d j built in
    let checked = Carries-verify j d a f' c (rw there e) (rw there b) (rw there k) in
    (
      a,
      rw there (
          rw (parse-make_approval d (values_of j now source) built)
            (rw (rw there at checked) refl)),
      c.decision,
    )
