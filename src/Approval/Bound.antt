-- ===== src/Approval/Bound.antt =====
-- approval.py: an approval that is read stands for the identity that was expected, and for the
-- artifacts that are there.
use mathlib.Core.Path.{subst}
use meta_harness.Common.{
  or-false, String, ◌≡◌, refl, ap, false, not, ◌&&◌, Option, none, some, arith, eq_iff, eq_refl,
  ◌==◌, is_some, ◌⊎◌, inl, inr, Bool-cases,
}
use meta_harness.Common.Outcome.{ok, bind-ok, refuse_if-eq-ok, ok-injective}
use meta_harness.Common.Names.{same_text}
use meta_harness.Json.{Value, obj}
use meta_harness.Checkpoint.{File, missing, unreadable, bytes}
use meta_harness.Approval.Identity.{PlanIdentity, PlanApproval, RunFiles}
use meta_harness.Approval.Artifact.{
  check_artifact, departs, differs, verify_approval, read_document, read_file, read_plan_approval,
  parse_approval,
}

-- A digest that is named is the digest of the file.
abbrev pub Digests : Option String → File → Type 0
Digests digest file =
    (digest ≡ none) ⊎ ((v : Option Value) × (s : String) × (digest ≡ some s) × (file ≡ bytes v s))

check_artifact-Digests :
    (o : Option String) (f : File) {u : Unit {0}} → check_artifact o f ≡ ok u → Digests o f
unfolding check_artifact
check_artifact-Digests none f h = inl refl
check_artifact-Digests (some s) missing h = cc
check_artifact-Digests (some s) unreadable h = cc
check_artifact-Digests (some s) (bytes v t) h = elim (Bool-cases (t == s)) [
  | inr e ↦ cc (rw e at h)
  | inl e ↦ inr (v, s, refl, ap (bytes v) ((eq_iff t s).0 e))
]

pub Digests-check_artifact :
    (o : Option String) (f : File) → Digests o f → check_artifact o f ≡ ok tt
unfolding check_artifact
Digests-check_artifact o f (inl e) = rw e refl
Digests-check_artifact o f (inr (v, s, e, there)) = rw (e, there, eq_refl s) refl

-- What the comparison of identities says of one optional digest.
optional_same :
    (o a : Option String) → departs o a ≡ false → (not (is_some o) && is_some a) ≡ false → a ≡ o
unfolding same_text
optional_same none none h k = refl
optional_same none (some a) h k = cc
optional_same (some s) none h k = cc
optional_same (some s) (some a) h k = ap some ((eq_iff a s).0 (ground arith))

departs_free : (o a : Option String) → departs o a ≡ false → (o ≡ none) ⊎ (a ≡ o)
unfolding same_text
departs_free none a h = inl refl
departs_free (some s) none h = cc
departs_free (some s) (some a) h = inr (ap some ((eq_iff a s).0 (ground arith)))

-- An approval stands for an identity.
pub record IsBound (expected : PlanIdentity) (f : RunFiles) (a : PlanApproval) : Type 0 where
  pub raw : a.raw_sha256 ≡ expected.raw_sha256
  pub contract : a.contract_sha256 ≡ expected.contract_sha256
  pub bundle : a.bundle_sha256 ≡ expected.bundle_sha256
  pub checks : a.checks_sha256 ≡ expected.checks_sha256
  pub execution :
      (expected.execution_sha256 ≡ none) ⊎ (a.execution_sha256 ≡ expected.execution_sha256)
  pub execution_file : Digests a.execution_sha256 f.execution
  pub bundle_file : Digests a.bundle_sha256 f.bundle
  pub checks_file : Digests a.checks_sha256 f.authority

same-not : (s t : String) → not (s == t) ≡ false → s ≡ t
same-not s t h = (eq_iff s t).0 (ground arith)

verify_approval-IsBound :
    (expected : PlanIdentity) (f : RunFiles) (a : PlanApproval) {b : PlanApproval}
    → verify_approval expected f a ≡ ok b
    → IsBound expected f b
unfolding verify_approval differs
verify_approval-IsBound expected f a h =
    let (u1, p1, k1) = bind-ok (check_artifact a.execution_sha256 f.execution) _ h in
    let (u2, p2, k2) = bind-ok (check_artifact a.bundle_sha256 f.bundle) _ k1 in
    let (u3, p3, k3) = bind-ok (check_artifact a.checks_sha256 f.authority) _ k2 in
    let (same, k4) = refuse_if-eq-ok (differs expected a) _ _ k3 in
    let (raw, r1) = or-false _ _ same in
    let (contract, r2) = or-false _ _ r1 in
    let (execution, r3) = or-false _ _ r2 in
    let (bundle, r4) = or-false _ _ r3 in
    let (checks, r5) = or-false _ _ r4 in
    let (bundle', checks') = or-false _ _ r5 in
    subst (IsBound expected f) (ok-injective k4) (record {
      raw = same-not _ _ raw;
      contract = same-not _ _ contract;
      bundle = optional_same expected.bundle_sha256 a.bundle_sha256 bundle bundle';
      checks = optional_same expected.checks_sha256 a.checks_sha256 checks checks';
      execution = departs_free expected.execution_sha256 a.execution_sha256 execution;
      execution_file = check_artifact-Digests a.execution_sha256 f.execution p1;
      bundle_file = check_artifact-Digests a.bundle_sha256 f.bundle p2;
      checks_file = check_artifact-Digests a.checks_sha256 f.authority p3;
    })

read_document-IsBound :
    (expected : PlanIdentity) (f : RunFiles) (v : Value) {a : PlanApproval}
    → read_document expected f v ≡ ok (some a)
    → IsBound expected f a
unfolding read_document
read_document-IsBound expected f (obj d) h =
    let (a, p, k) = bind-ok (parse_approval d) _ h in
    let (b, q, l) = bind-ok (verify_approval expected f a) _ k in
    subst (IsBound expected f) (ground arith) (verify_approval-IsBound expected f a q)
read_document-IsBound expected f v h = cc

read_file-IsBound :
    (file : File) (expected : PlanIdentity) (f : RunFiles) {a : PlanApproval}
    → read_file file expected f ≡ ok (some a)
    → IsBound expected f a
unfolding read_file
read_file-IsBound missing expected f h = cc
read_file-IsBound unreadable expected f h = cc
read_file-IsBound (bytes none sha) expected f h = cc
read_file-IsBound (bytes (some v) sha) expected f h = read_document-IsBound expected f v h

-- An approval that `read_plan_approval` returns stands for the expected identity: the raw plan, the
-- contract, the bundle and the check authority are the expected ones, the execution selection is if one
-- is expected, and every artifact that the approval names has the digest that it names.
pub read_plan_approval-IsBound :
    (expected : PlanIdentity) (f : RunFiles) (a : PlanApproval)
    → read_plan_approval expected f ≡ ok (some a)
    → IsBound expected f a
unfolding read_plan_approval
read_plan_approval-IsBound expected f a h = read_file-IsBound f.approval expected f h
