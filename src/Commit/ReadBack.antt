-- ===== src/Commit/ReadBack.antt =====
-- commit_gate.py: `StepVerification.payload` and `StepVerification.from_payload` together.
use mathlib.Core.Path.{subst}
use meta_harness.Common.{
  String, ◌≡◌, refl, ◌∙◌, Option, none, some, List, [], ◌∷◌, ◌==◌, inl, inr, arith, Bool-cases,
}
use meta_harness.Common.Outcome.{ok, bind-ok, refuse_if-eq-ok, ok-injective}
use meta_harness.Json.{Value, str, obj, arr, Fields, nil, cons, get, truthy, text_items}
use meta_harness.Commit.Safety.{
  DeferredVerification, StepVerification, passed_carries_deferred, deferred_fields,
  verification_payload, text_field, texts_of, texts_field, from_status, from_payload,
}

text_field-stable : (v : Value) {s : String} → text_field v ≡ ok s → text_field (str s) ≡ ok s
unfolding text_field
text_field-stable (str t) h = ground arith
text_field-stable v h = cc

texts_of-text_items : (xs : List String) → texts_of (text_items xs) ≡ ok xs
unfolding texts_of
texts_of-text_items [] = refl
texts_of-text_items (x ∷ xs) = rw (texts_of-text_items xs)

texts_field-stable :
    (v : Value) {xs : List String}
    → texts_field v ≡ ok xs
    → texts_field (arr (text_items xs)) ≡ ok xs
unfolding texts_field
texts_field-stable (arr nil) h = cc
texts_field-stable (arr (cons (str s) vs)) h =
    let (ys, p, k) = bind-ok (texts_of vs) _ h in
    rw (← ok-injective k) (texts_of-text_items (s ∷ ys))
texts_field-stable (arr (cons v vs)) h = cc
texts_field-stable v h = cc

printed :
    (s : String) (o : Option DeferredVerification)
    → from_payload (obj (verification_payload (record { status = s; deferred = o })))
      ≡ from_status (deferred_fields o) (str s)
unfolding from_payload verification_payload get from_status deferred_fields
printed s none = refl
printed s (some d) = refl

-- What is read of the payload of `r` is `r`.
abbrev IsStable : StepVerification → Type 0
IsStable r = from_status (deferred_fields r.deferred) (str r.status) ≡ ok r

passed-IsStable : IsStable (record { status = "passed"; deferred = none })
unfolding from_status deferred_fields get truthy
passed-IsStable = refl

deferred-IsStable :
    (d : DeferredVerification)
    → text_field (str d.reason) ≡ ok d.reason
    → texts_field (arr (text_items d.dependent_step_ids)) ≡ ok d.dependent_step_ids
    → text_field (str d.command_or_contract) ≡ ok d.command_or_contract
    → IsStable (record { status = "deferred"; deferred = some d })
unfolding from_status deferred_fields get
deferred-IsStable d p q r = rw (p, q, r) refl

from_status-IsStable :
    (d : Fields) (v : Value) {r : StepVerification} → from_status d v ≡ ok r → IsStable r
unfolding from_status
from_status-IsStable d (str s) h = elim (Bool-cases (s == "passed")) [
  | inl e ↦
      let (test, k) = refuse_if-eq-ok _ passed_carries_deferred _ (rw e at h) in
      subst IsStable (ok-injective k) passed-IsStable
  | inr e ↦ elim (Bool-cases (s == "deferred")) [
    | inr e' ↦ cc (rw (e, e') at h)
    | inl e' ↦
        let (reason, p1, k1) = bind-ok (text_field (get d "deferred_reason")) _ (rw (e, e') at h) in
        let (dependents, p2, k2) = bind-ok (texts_field (get d "dependent_step_ids")) _ k1 in
        let (command, p3, k3) = bind-ok (text_field (get d "deferred_command_or_contract")) _ k2 in
        subst IsStable (ok-injective k3) (
          deferred-IsStable
            (record {
              reason = reason;
              dependent_step_ids = dependents;
              command_or_contract = command;
            })
            (text_field-stable (get d "deferred_reason") p1)
            (texts_field-stable (get d "dependent_step_ids") p2)
            (text_field-stable (get d "deferred_command_or_contract") p3))
  ]
]
from_status-IsStable d v h = cc

-- A verification that was read from a record is read back from its own payload.
pub from_payload-verification_payload :
    (v : Value) {r : StepVerification}
    → from_payload v ≡ ok r
    → from_payload (obj (verification_payload r)) ≡ ok r
unfolding from_payload
from_payload-verification_payload (obj d) {r} h =
    printed r.status r.deferred ∙ from_status-IsStable d (get d "status") h
from_payload-verification_payload v h = cc
