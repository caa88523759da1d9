-- ===== src/Policy/Boundaries.antt =====
-- Who may act next: what a classification can and cannot decide.
use Prim.Native.String.{◌++◌}
use Prim.Native.String.append as add
use Prim.Native.Char.{Char}
use mathlib.Core.List.{Memᴰ}
use meta_harness.Common.{
  ◌≤◌, String, ◌≡◌, refl, ap, sym, ◌∙◌, inl, inr, Bool, true, false, ◌&&◌, Option, none, some, List,
  [], ◌∷◌, arith, Bool-cases, Option-cases, is_some, eq_iff, ◌==◌,
}
use meta_harness.Common.Outcome.{ok, Outcome-cases, ok-injective}
use meta_harness.Common.Text.{is_blank, is_empty, is_space, has_prefix, has_suffix}
use meta_harness.Common.Text.Affix.{has_prefix-append, has_suffix-append, and-left, and-right}
use meta_harness.Json.{Value, int, pos}
use meta_harness.Policy.Table.{
  FailureClass, transient, fixable, spec_decision, fatal, hard_stop, Row, failure_classes,
  recovery_ladder, last, reason_of,
}
use meta_harness.Policy.Codes.{
  stable_code, canonical_failure_code, matches_key, drop_first, drop_last, exact_row, pattern_row,
  lookup_in, lookup,
}
use meta_harness.Policy.Classify.{
  RecoveryDecision, make_decision, class_or_fixable, rung, classify_failure,
}
use meta_harness.Policy.Budget.{Limits, make_limits}

reason_filled : (c : FailureClass) → is_blank (reason_of c) ≡ false
unfolding reason_of is_blank is_space
reason_filled transient = refl
reason_filled fixable = refl
reason_filled spec_decision = refl
reason_filled fatal = refl

abbrev pub decision : FailureClass → Bool → Bool → RecoveryDecision
decision c exhausted known = record {
  failure_class = c;
  strategy = rung (recovery_ladder c) exhausted;
  reason = reason_of c;
  known = known;
}

make_decision_ladder :
    (c : FailureClass) (exhausted known : Bool)
    → make_decision c (rung (recovery_ladder c) exhausted) (reason_of c) known
      ≡ ok (decision c exhausted known)
unfolding make_decision rung recovery_ladder last
make_decision_ladder transient true k = rw (reason_filled transient)
make_decision_ladder transient false k = rw (reason_filled transient)
make_decision_ladder fixable true k = rw (reason_filled fixable)
make_decision_ladder fixable false k = rw (reason_filled fixable)
make_decision_ladder spec_decision true k = rw (reason_filled spec_decision)
make_decision_ladder spec_decision false k = rw (reason_filled spec_decision)
make_decision_ladder fatal true k = rw (reason_filled fatal)
make_decision_ladder fatal false k = rw (reason_filled fatal)

canonical_total :
    (s : String) → is_blank s ≡ false → (code : String) × (canonical_failure_code s ≡ ok code)
canonical_total s h = elim (Outcome-cases (canonical_failure_code s)) [
  | inl (code, p) ↦ (code, p)
  | inr (e, p) ↦ absurd (unfold canonical_failure_code stable_code in ground arith)
]

-- Every failure that is not blank is classified: the refusals of `RecoveryDecision` are never met.
-- The decision is the first step of the ladder of its class, or the last one once exhausted; a code
-- that the table does not name is FIXABLE.
pub classify_failure_total :
    (s : String) (exhausted : Bool)
    → is_blank s ≡ false
    → (code : String) × (canonical_failure_code s ≡ ok code)
      × (classify_failure s exhausted
          ≡ ok (decision (class_or_fixable (lookup code)) exhausted (is_some (lookup code))))
unfolding classify_failure
classify_failure_total s exhausted h =
    let (code, p) = canonical_total s h in
    (
      code,
      p,
      rw p
          (make_decision_ladder (class_or_fixable (lookup code)) exhausted (is_some (lookup code))),
    )

rung_hard_stop : (c : FailureClass) (x : Bool) → rung (recovery_ladder c) x ≡ hard_stop → c ≡ fatal
unfolding rung recovery_ladder last
rung_hard_stop c x h = ground arith

-- A row of the table that names a code: by its key, by the prefix before the key's final `*`, or by
-- the suffix behind its first `*`.
pub data Names (key code : String) : Type 0 where
  exactly : key ≡ code → Names key code
  by_prefix : (p r : String) → key ≡ p ++ "*" → code ≡ p ++ r → Names key code
  by_suffix : (p r : String) → key ≡ "*" ++ p → code ≡ r ++ p → Names key code

drop_last-cons :
    (c : Char) (s : String)
    → is_empty s ≡ false
    → drop_last (String.◌∷◌ c s) ≡ String.◌∷◌ c (drop_last s)
unfolding drop_last
drop_last-cons c String.[] h = cc
drop_last-cons c (String.◌∷◌ d s) h = refl

starred_filled : (p : String) → is_empty (p ++ "*") ≡ false
starred_filled String.[] = refl
starred_filled (String.◌∷◌ c p) = rw add.cons

drop_last-starred : (p : String) → drop_last (p ++ "*") ≡ p
drop_last-starred String.[] = unfold drop_last in refl
drop_last-starred (String.◌∷◌ c p) =
    rw add.cons
      (drop_last-cons c (p ++ "*") (starred_filled p) ∙ ap (String.◌∷◌ c) (drop_last-starred p))

drop_last-suffix : (key p : String) → key ≡ p ++ "*" → key ≡ drop_last key ++ "*"
drop_last-suffix key p e = e ∙ ap (λ t. t ++ "*") (sym (ap drop_last e ∙ drop_last-starred p))

drop_first-starred : (r : String) → drop_first ("*" ++ r) ≡ r
unfolding drop_first
drop_first-starred r = rw (add.cons, add.nil)

drop_first-prefix : (key r : String) → key ≡ "*" ++ r → key ≡ "*" ++ drop_first key
drop_first-prefix key r e = e ∙ ap (λ t. "*" ++ t) (sym (ap drop_first e ∙ drop_first-starred r))

matches_key-Names : (key code : String) → matches_key key code ≡ true → Names key code
unfolding matches_key
matches_key-Names key code h =
    elim (Bool-cases (has_suffix key "*" && has_prefix code (drop_last key))) [
      | inl e ↦
          let (p, q) = has_suffix-append key "*" (and-left _ _ e) in
          let (r, t) =
            has_prefix-append code (drop_last key) (and-right (has_suffix key "*") _ e) in
          by_prefix (drop_last key) r (drop_last-suffix key p q) t
      | inr e ↦
          let k : (has_prefix key "*" && has_suffix code (drop_first key)) ≡ true = rw e at h in
          let (p, q) = has_prefix-append key "*" (and-left _ _ k) in
          let (r, t) =
            has_suffix-append code (drop_first key) (and-right (has_prefix key "*") _ k) in
          by_suffix (drop_first key) r (drop_first-prefix key p q) t
    ]

abbrev pub Found : List Row → String → FailureClass → Type 0
Found rows code c = (key : String) × Memᴰ (key, c) rows × Names key code

Found-head :
    (rows : List Row) (code key : String) {c d : FailureClass}
    → Names key code
    → d ≡ c
    → Found ((key, d) ∷ rows) code c
Found-head rows code key n e = (key, Memᴰ.head (rw e), n)

Found-tail :
    (row : Row) (rows : List Row) (code : String) {c : FailureClass}
    → Found rows code c
    → Found (row ∷ rows) code c
Found-tail row rows code (key, m, n) = (key, Memᴰ.tail m, n)

exact_row-Found :
    (rows : List Row) (code : String) {c : FailureClass}
    → exact_row rows code ≡ some c
    → Found rows code c
unfolding exact_row
exact_row-Found [] code h = cc
exact_row-Found ((k, d) ∷ rows) code {c} h = elim (Bool-cases (k == code)) [
  | inl e ↦
      Found-head rows code k (exactly ((eq_iff k code).0 e)) (let g = rw e at h in ground arith)
  | inr e ↦ Found-tail (k, d) rows code (exact_row-Found rows code (rw e at h))
]

pattern_row-Found :
    (rows : List Row) (code : String) {c : FailureClass}
    → pattern_row rows code ≡ some c
    → Found rows code c
unfolding pattern_row
pattern_row-Found [] code h = cc
pattern_row-Found ((k, d) ∷ rows) code {c} h = elim (Bool-cases (matches_key k code)) [
  | inl e ↦ Found-head rows code k (matches_key-Names k code e) (let g = rw e at h in ground arith)
  | inr e ↦ Found-tail (k, d) rows code (pattern_row-Found rows code (rw e at h))
]

lookup_in-Found :
    (rows : List Row) (code : String) {c : FailureClass}
    → lookup_in rows code ≡ some c
    → Found rows code c
unfolding lookup_in
lookup_in-Found rows code h = elim (Option-cases (exact_row rows code)) [
  | inl e ↦ pattern_row-Found rows code (rw e at h)
  | inr (d, e) ↦ exact_row-Found rows code (rw e (rw e at h))
]

fatal_known : (o : Option FailureClass) → class_or_fixable o ≡ fatal → o ≡ some fatal
fatal_known none h = cc
fatal_known (some c) h = ap some h

-- A run is stopped for good only by the closed table: a decision that says HARD_STOP is about a code
-- that a FATAL row names, by its exact key or by its pattern.
pub hard_stop-Found :
    (s : String) (exhausted : Bool) {d : RecoveryDecision}
    → is_blank s ≡ false
    → classify_failure s exhausted ≡ ok d
    → d.strategy ≡ hard_stop
    → (code : String) × (canonical_failure_code s ≡ ok code) × Found failure_classes code fatal
unfolding lookup
hard_stop-Found s exhausted {d} filled h stop =
    let (code, p, q) = classify_failure_total s exhausted filled in
    let same = ok-injective (sym h ∙ q) in
    let c : class_or_fixable (lookup code) ≡ fatal =
      rung_hard_stop (class_or_fixable (lookup code)) exhausted
        (sym (ap (λ (r : RecoveryDecision). r.strategy) same) ∙ stop) in
    (code, p, lookup_in-Found failure_classes code (fatal_known (lookup code) c))

-- Whatever values were given, the integer limits of a budget that was built lie in their bounds, and
-- each is the integer that was given.
make_limits_bounds :
    (s a m : Value) (l : Limits)
    → make_limits s a m ≡ ok l
    → (1 ≤ l.step_attempts)
      × (l.step_attempts ≤ 10)
      × (l.audit_repairs ≤ 10)
      × (1 ≤ l.max_iterations)
      × (l.max_iterations ≤ 99)
      × (s ≡ int (pos l.step_attempts))
      × (a ≡ int (pos l.audit_repairs))
      × (m ≡ int (pos l.max_iterations))
unfolding make_limits
make_limits_bounds s a m l h = ground arith
