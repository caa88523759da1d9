-- ===== src/Coordinator/Bounded.antt =====
-- Every loop of the coordinator is bounded by its durable budget: what `admit` consumes, for one
-- request and for any sequence of requests.
use meta_harness.Common.{
  and-true, ℕ, suc, ◌+◌, ◌-◌, ◌≤◌, ◌<◌, String, ◌≡◌, refl, sym, ap, ◌∙◌, Bool, true, false, not,
  ◌&&◌, ◌||◌, List, [], ◌∷◌, arith, eq_iff, eq_refl, ◌==◌, leb, leb→le, if◌then◌else◌, Bool-cases,
  ◌⊎◌, inl, inr,
}
use meta_harness.Common.Outcome.{Outcome, ok, raised, map_raised, Outcome-cases, ok-injective}
use meta_harness.Common.Effect.{continue, giving}
use meta_harness.Policy.Classify.{RecoveryDecision, classify_failure}
use meta_harness.Store.Disk.{Disk}
use meta_harness.Coordinator.Counters.{
  CoordinatorError, policy_error, used, bounded_operation, RecoveryAttempt, consume,
}
use meta_harness.Coordinator.Counting.{consume-used, consume-raised}
use meta_harness.Coordinator.Admission.{
  AdmitRequest, RecoveryAdmission, refused, attempt_of, admission, start, exhaust, settle, admit,
}

abbrev pub won : Outcome CoordinatorError RecoveryAdmission → Bool
won (ok a) = a.admitted
won (raised e) = false

-- What one call of `admit` did: it left the disk alone, or it consumed one unit of its budget.
pub record Consumed (q : AdmitRequest) (d d' : Disk) (j : String) : Type 0 where
  pub before : ℕ
  pub read : used q.key d ≡ ok before
  pub below : before < q.budget
  pub after : used j d' ≡ (if q.key == j then ok (suc before) else used j d)

abbrev pub Left : Disk → Outcome CoordinatorError RecoveryAdmission × Disk → Type 0
Left d p = (won p.0 ≡ false) × (p.1 ≡ d)

abbrev pub Settled :
    AdmitRequest → Disk → String → Outcome CoordinatorError RecoveryAdmission × Disk → Type 0
Settled q d j p = Left d p ⊎ ((won p.0 ≡ true) × Consumed q d p.1 j)

exhaust-Left : (q : AdmitRequest) (n : ℕ) (d : Disk) → Left d (exhaust q n d)
unfolding exhaust
exhaust-Left q n d =
    elim (Outcome-cases (map_raised policy_error (classify_failure q.reason true))) [
      | inl (decision, p) ↦ rw p (refl, refl)
      | inr (e, p) ↦ rw p (refl, refl)
    ]

module _ (now j : String) (q : AdmitRequest) (d : Disk) (n : ℕ) (decision : RecoveryDecision) where
  consume-Settled :
      (attempt : RecoveryAttempt) (r : Outcome CoordinatorError ℕ × Disk)
      → used q.key d ≡ ok n
      → n < q.budget
      → consume now q.key attempt d ≡ r
      → Settled q d j (continue r (λ k. giving (ok (admission q n true decision k false))))
  consume-Settled attempt (raised e, d') h below r =
      inl (refl, consume-raised q.key attempt d now r)
  consume-Settled attempt (ok k, d') h below r =
      let (before, read, same, after) = consume-used q.key attempt d now j r in
      inr (
        refl,
        record {
          before = before;
          read = read;
          below = rw (ok-injective (sym read ∙ h)) below;
          after = after;
        },
      )

  start-Settled : used q.key d ≡ ok n → n < q.budget → Settled q d j (start now q n decision d)
  unfolding start
  start-Settled h below =
      elim (Outcome-cases (bounded_operation (attempt_of q n decision).operation_id)) [
        | inr (e, p) ↦ rw p (inl (refl, refl))
        | inl (u, p) ↦ rw p (consume-Settled (attempt_of q n decision) _ h below refl)
      ]

  settle-Settled : used q.key d ≡ ok n → Settled q d j (settle now q n decision d)
  unfolding settle
  settle-Settled h = elim (Bool-cases (refused q decision)) [
    | inl r ↦ rw r (inl (refl, refl))
    | inr r ↦ elim (Bool-cases (leb q.budget n)) [
      | inl b ↦ rw (r, b) (inl (exhaust-Left q n d))
      | inr b ↦ rw (r, b) (start-Settled h (ground arith))
    ]
  ]

pub admit-Settled : (now j : String) (q : AdmitRequest) (d : Disk) → Settled q d j (admit now q d)
unfolding admit
admit-Settled now j q d = elim (Outcome-cases (used q.key d)) [
  | inr (e, p) ↦ rw p (inl (refl, refl))
  | inl (n, p) ↦ elim (Outcome-cases (map_raised policy_error (classify_failure q.reason false))) [
    | inr (e, c) ↦ rw (p, c) (inl (refl, refl))
    | inl (decision, c) ↦ rw (p, c) (settle-Settled now j q d n decision p)
  ]
]

Settled-admitted :
    (q : AdmitRequest) (d d' : Disk) (a : RecoveryAdmission)
    → Settled q d q.key (ok a, d')
    → a.admitted ≡ true
    → (n : ℕ) × (used q.key d ≡ ok n) × (n < q.budget) × (used q.key d' ≡ ok (suc n))
Settled-admitted q d d' a (inl (lost, same)) h = cc
Settled-admitted q d d' a (inr (w, c)) h =
    (c.before, c.read, c.below, c.after ∙ rw (eq_refl q.key) refl)

-- An admission that is granted found its counter below the budget, and left it one higher.
pub admit-admitted :
    (now : String) (q : AdmitRequest) (d d' : Disk) (a : RecoveryAdmission)
    → admit now q d ≡ (ok a, d')
    → a.admitted ≡ true
    → (n : ℕ) × (used q.key d ≡ ok n) × (n < q.budget) × (used q.key d' ≡ ok (suc n))
admit-admitted now q d d' a h = Settled-admitted q d d' a (rw h at (admit-Settled now q.key q d))

Settled-refused :
    (q : AdmitRequest) (d d' : Disk) (a : RecoveryAdmission)
    → Settled q d q.key (ok a, d')
    → a.admitted ≡ false
    → d' ≡ d
Settled-refused q d d' a (inl (lost, same)) h = same
Settled-refused q d d' a (inr (w, c)) h = cc

-- An admission that is refused leaves the disk alone.
pub admit-refused :
    (now : String) (q : AdmitRequest) (d d' : Disk) (a : RecoveryAdmission)
    → admit now q d ≡ (ok a, d')
    → a.admitted ≡ false
    → d' ≡ d
admit-refused now q d d' a h = Settled-refused q d d' a (rw h at (admit-Settled now q.key q d))

-- A sequence of calls, each with its moment: how many of those on one key were admitted.
unfoldable pub admit_each : String → List (String × AdmitRequest) → Disk → ℕ × Disk
admit_each key [] d = (0, d)
admit_each key ((now, q) ∷ qs) d =
    let later = admit_each key qs (admit now q d).1 in
    (if q.key == key && won (admit now q d).0 then suc later.0 else later.0, later.1)

-- The requests on a key ask for a budget of at most `b`.
unfoldable pub capped : String → ℕ → List (String × AdmitRequest) → Bool
capped key b [] = true
capped key b ((now, q) ∷ qs) = (not (q.key == key) || leb q.budget b) && capped key b qs

lost_either : (a b : Bool) → b ≡ false → (a && b) ≡ false
lost_either true b h = h
lost_either false b h = refl

admit_each_step :
    (key now : String) (q : AdmitRequest) (d : Disk) (b n : ℕ)
    → not (q.key == key) || leb q.budget b ≡ true
    → used key d ≡ ok n
    → Settled q d key (admit now q d)
    → (m : ℕ) × (used key (admit now q d).1 ≡ ok m)
      × (((q.key == key && won (admit now q d).0) ≡ false) × (m ≡ n)
          ⊎ ((q.key == key && won (admit now q d).0) ≡ true) × (m ≡ suc n) × (n < b))
admit_each_step key now q d b n cap h (inl (lost, same)) =
    (n, rw same h, inl (lost_either (q.key == key) _ lost, refl))
admit_each_step key now q d b n cap h (inr (w, c)) = elim (Bool-cases (q.key == key)) [
  | inr other ↦ (n, c.after ∙ rw other h, inl (rw other refl, refl))
  | inl same ↦
      let named : q.key ≡ key = (eq_iff q.key key).0 same in
      let equal : c.before ≡ n = ok-injective (sym c.read ∙ rw named h) in
      let within : q.budget ≤ b = leb→le q.budget b (rw same at cap) in
      let below = c.below in
      (suc n, c.after ∙ rw (same, equal) refl, inr (rw (same, w) refl, refl, omega arith))
]

-- Over any sequence of requests, those on other keys included, refused or failing ones as well: the
-- counter of a key grows by exactly the number of its admitted requests, and when none of its requests
-- asks for a budget above b, that number is at most what the counter leaves of b.
pub admit_each-bounded :
    (key : String) (qs : List (String × AdmitRequest)) (d : Disk) (b n : ℕ)
    → capped key b qs ≡ true
    → used key d ≡ ok n
    → (used key (admit_each key qs d).1 ≡ ok (n + (admit_each key qs d).0))
      × ((admit_each key qs d).0 ≤ b - n)
unfolding admit_each capped
admit_each-bounded key [] d b n cap h = (h ∙ ap ok (omega arith), omega arith)
admit_each-bounded key ((now, q) ∷ qs) d b n cap h =
    let caps = and-true (not (q.key == key) || leb q.budget b) (capped key b qs) cap in
    let (m, read, step) = admit_each_step key now q d b n caps.0 h (admit-Settled now key q d) in
    let (after, few) = admit_each-bounded key qs (admit now q d).1 b m caps.1 read in
    elim step [
      | inl (off, same) ↦ rw off (after ∙ ap ok (omega arith), omega arith)
      | inr (on, next, below) ↦ rw on (after ∙ ap ok (omega arith), omega arith)
    ]
