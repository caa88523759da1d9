-- ===== src/Steps/Ended.antt =====
-- orchestration/step_execution.py: the ladder of a step's attempts as a whole, and its rungs.
use meta_harness.Common.{
  ℕ, zero, suc, ◌+◌, ◌-◌, ◌≤◌, ◌<◌, String, ◌≡◌, refl, sym, ap, ◌∙◌, Option, some, List, inl, inr,
  arith,
}
use meta_harness.Common.Outcome.{Outcome, ok, raised, ok-injective}
use meta_harness.Common.Lists.{length, length-take-le}
use meta_harness.Store.Disk.{Disk}
use meta_harness.Attempt.Ownership.{GitOwnership}
use meta_harness.Coordinator.Counters.{used}
use meta_harness.Steps.Attempt.{StepExecutionOutcome, LadderHost, LadderError, StepPlan}
use meta_harness.Steps.Rung.{Rung, Round, finished, onward}
use meta_harness.Steps.Ladder.{round, again, climb, first_rung, execute_step_attempts}
use meta_harness.Steps.Spent.{round-Spent}

module _ {W : Type 0} (host : LadderHost W) (plan : StepPlan) (ownership : GitOwnership) where
  abbrev Answer : Type 0
  Answer = Outcome LadderError StepExecutionOutcome × (Disk × W)

  again-returns :
      (p : Outcome LadderError Round × (Disk × W)) (rest : Rung → Disk × W → Option Answer)
      → ((st : Rung) (s : Disk × W) → p ≡ (ok (onward st), s) → (r : Answer) × (rest st s ≡ some r))
      → (r : Answer) × (again host plan ownership p rest ≡ some r)
  again-returns (raised e, s) rest next = ((raised e, s), refl)
  again-returns (ok (finished o), s) rest next = ((ok o, s), refl)
  again-returns (ok (onward st), s) rest next = next st s refl

  remaining_rounds :
      (fuel n : ℕ) (st : Rung) (s : Disk × W)
      → used plan.retry_key s.0 ≡ ok n
      → plan.attempts - 1 < n + fuel
      → n ≤ plan.attempts - 1
      → (r : Answer) × (climb host plan ownership fuel st s ≡ some r)
  unfolding climb
  remaining_rounds zero n st s h enough within = absurd (omega arith)
  remaining_rounds (suc fuel) n st s h enough within =
      again-returns (round host plan ownership st s) (climb host plan ownership fuel) (λ st' s' p.
        let i = round-Spent host plan ownership st s p in
        let same : i.before ≡ n = ok-injective (sym i.counted ∙ h) in
        remaining_rounds fuel (suc i.before) st' s' i.spent (omega (arith, i.below))
          (omega (arith, i.below)))

  -- The ladder ends, whatever the worker, the fast gate and the repository do and whatever the durable
  -- counter of the step holds: it makes as many rounds, with one worker attempt each, as the step's
  -- budget of attempts at most, and one if that is 0.
  pub execute_step_attempts-returns :
      (profile : String) (fallbacks : List String) (s : Disk × W)
      → (r : Answer) × (execute_step_attempts host plan ownership
            (suc (plan.attempts - 1))
            profile
            fallbacks
            s
          ≡ some r)
  unfolding execute_step_attempts climb
  execute_step_attempts-returns profile fallbacks s =
      again-returns (round host plan ownership (first_rung host plan ownership profile fallbacks) s)
        (climb host plan ownership (plan.attempts - 1))
        (λ st' s' p.
          let i =
            round-Spent host plan ownership (first_rung host plan ownership profile fallbacks) s
              p in
          remaining_rounds (plan.attempts - 1) (suc i.before) st' s' i.spent (omega arith)
            (omega (arith, i.below)))

  -- The rounds of a ladder, one after the other.
  pub data Climbs (st : Rung) (s : Disk × W) : Rung → Disk × W → Type 0 where
    here : Climbs st s st s
    further :
        {st1 st2 : Rung} {s1 s2 : Disk × W}
        → Climbs st s st1 s1
        → round host plan ownership st1 s1 ≡ (ok (onward st2), s2)
        → Climbs st s st2 s2

  -- The budget covers what was consumed and one attempt for each fallback that remains.
  abbrev pub Reserved : Rung → Disk × W → Type 0
  Reserved st s =
      (n : ℕ) × (used plan.retry_key s.0 ≡ ok n) × (n + length st.fallbacks ≤ plan.attempts - 1)

  round-Reserved :
      (st : Rung) (s : Disk × W) {st' : Rung} {s' : Disk × W}
      → Reserved st s
      → round host plan ownership st s ≡ (ok (onward st'), s')
      → Reserved st' s'
  round-Reserved st s (n, h, room) p =
      let i = round-Spent host plan ownership st s p in
      let same : i.before ≡ n = ok-injective (sym i.counted ∙ h) in
      elim i.rungs [
        | inl (kept, below) ↦ (suc i.before, i.spent, omega (arith, below, ap length kept))
        | inr (profile, left, active) ↦ (suc i.before, i.spent, omega (arith, ap length left))
      ]

  -- A step whose counter is unused when its ladder begins: at every later rung the budget still has a
  -- unit for each fallback that remains, whatever retries and fallbacks were admitted in between.
  pub Climbs-Reserved :
      (profile : String) (fallbacks : List String) (s : Disk × W) {st : Rung} {s' : Disk × W}
      → used plan.retry_key s.0 ≡ ok 0
      → Climbs (first_rung host plan ownership profile fallbacks) s st s'
      → Reserved st s'
  unfolding first_rung
  Climbs-Reserved profile fallbacks s unused here =
      (0, unused, omega (arith, length-take-le (plan.attempts - 1) fallbacks))
  Climbs-Reserved profile fallbacks s unused (further c p) =
      round-Reserved _ _ (Climbs-Reserved profile fallbacks s unused c) p
