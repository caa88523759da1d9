-- ===== src/Coordinator/Retries.antt =====
-- The workspace setup loop of orchestration/recovery.py ends: each further round costs one unit of
-- the durable budget.
use meta_harness.Common.{
  ℕ, zero, suc, ◌+◌, ◌≤◌, ◌<◌, String, ◌≡◌, refl, sym, ap, ◌∙◌, false, not, Option, none, some,
  arith,
}
use meta_harness.Common.Outcome.{Outcome, ok, raised, ok-injective}
use meta_harness.Common.Effect.{
  on_first, on_second, on_first-ok, on_second-ok, reading, continue-ok, continue-refusing,
}
use meta_harness.Json.{Items, nil, cons, has_key}
use meta_harness.Store.Disk.{Disk}
use meta_harness.Store.Writes.{update_metadata}
use meta_harness.Attempt.Recovery.{CandidateState, SideEffect, contain_trusted_process}
use meta_harness.Coordinator.Counters.{store_error, used}
use meta_harness.Coordinator.Counting.{used-update_metadata}
use meta_harness.Coordinator.Admission.{admit}
use meta_harness.Coordinator.Bounded.{admit-admitted}
use meta_harness.Coordinator.Setup.{
  SetupHost, LoopError, coordinator, not_archived, unread, uncontained, contained_tree, tried,
  setup_key, setup_request, setup_fields, guard, again, note_results, after_failure, after_setup,
  setup_round, prepare_workspace, now_then,
}

setup_fields-counters : (xs : Items) → has_key (setup_fields xs) "recovery_counters" ≡ false
unfolding has_key
setup_fields-counters xs = refl

module _ {W R : Type 0} (host : SetupHost W R) where
  guard-disk :
      (s : Disk × W) {u : Unit {0}} {s' : Disk × W} → guard host s ≡ (ok u, s') → s'.0 ≡ s.0
  unfolding guard
  guard-disk (d, w) h = sym (ap (λ p. p.1.0) h)

  note_results-used :
      (results : Items) (s : Disk × W) (key : String) {u : Unit {0}} {s' : Disk × W}
      → note_results host results s ≡ (ok u, s')
      → used key s'.0 ≡ used key s.0
  unfolding note_results now_then
  note_results-used nil s key h = ap (λ p. used key p.1.0) (sym h)
  note_results-used (cons v vs) (d, w) key h =
      let (a, s1, p, k) =
        continue-ok
          (on_first (λ e. coordinator (store_error e))
            (update_metadata (host.tick w).0 none (setup_fields (cons v vs))) (d, (host.tick w).1))
          _ h in
      let wrote =
        (on_first-ok (λ e. coordinator (store_error e))
          (update_metadata (host.tick w).0 none (setup_fields (cons v vs))) (d, (host.tick w).1)
          p).0 in
      ap (λ q. used key q.1.0) (sym k)
      ∙ used-update_metadata (host.tick w).0 (setup_fields (cons v vs)) d s1.0 a key
          (setup_fields-counters (cons v vs)) wrote

  after_failure-used :
      (budget : ℕ) (before after code : String) (results : Items) (s : Disk × W) {s' : Disk × W}
      → after_failure host budget before after code results s ≡ (ok none, s')
      → (n : ℕ) × (used setup_key s.0 ≡ ok n) × (n < budget) × (used setup_key s'.0 ≡ ok (suc n))
  unfolding after_failure now_then
  after_failure-used budget before after code results s h =
      let (u, (d1, w1), p1, k1) = continue-ok (note_results host results s) _ h in
      let (a, (d2, w2), p2, k2) =
        continue-ok
          (on_first coordinator (admit (host.tick w1).0 (setup_request budget code before after))
            (d1, (host.tick w1).1))
          _ k1 in
      let (granted, k3) = continue-refusing (not a.admitted) _ (d2, w2) _ k2 in
      let (v, s4, p4, k4) = continue-ok (on_second _ host.archive_attempt_tree (d2, w2)) _ k3 in
      let (n, read, below, next) =
        admit-admitted (host.tick w1).0 (setup_request budget code before after) d1 d2 a
          (on_first-ok coordinator (admit (host.tick w1).0 (setup_request budget code before after))
            (d1, (host.tick w1).1) p2).0
          (ground arith) in
      (
        n,
        sym (note_results-used results s setup_key p1) ∙ read,
        below,
        ap (λ q. used setup_key q.1.0) (sym k4)
            ∙ (ap (used setup_key)
                  (on_second-ok not_archived host.archive_attempt_tree (d2, w2) p4).1
                ∙ next),
      )

  after_setup-used :
      (budget : ℕ) (before : CandidateState) (effect : Option SideEffect)
      (outcome : Outcome (String × Items) R) (s : Disk × W) {s' : Disk × W}
      → after_setup host budget before effect outcome s ≡ (ok none, s')
      → (n : ℕ) × (used setup_key s.0 ≡ ok n) × (n < budget) × (used setup_key s'.0 ≡ ok (suc n))
  unfolding after_setup
  after_setup-used budget before effect (ok r) s h = cc
  after_setup-used budget before effect (raised (code, results)) s h =
      after_failure-used budget before.candidate_tree (contained_tree before effect) code results s
        h

  -- A round after which the loop goes on has consumed one unit of the budget.
  setup_round-used :
      (budget : ℕ) (s : Disk × W) {s' : Disk × W}
      → setup_round host budget s ≡ (ok none, s')
      → (n : ℕ) × (used setup_key s.0 ≡ ok n) × (n < budget) × (used setup_key s'.0 ≡ ok (suc n))
  unfolding setup_round
  setup_round-used budget s h =
      let (u, s1, p1, k1) = continue-ok (guard host s) _ h in
      let snapshot = reading host.candidates.snapshot_candidate_state in
      let (before, s2, p2, k2) = continue-ok (on_second unread snapshot s1) _ k1 in
      let (outcome, s3, p3, k3) =
        continue-ok (on_second (λ e. e) (λ w. tried (host.run_setup w)) s2) _ k2 in
      let contained = contain_trusted_process host.candidates before in
      let (effect, s4, p4, k4) = continue-ok (on_second uncontained contained s3) _ k3 in
      let (n, read, below, next) = after_setup-used budget before effect outcome s4 k4 in
      let same : s4.0 ≡ s.0 =
        (on_second-ok uncontained contained s3 p4).1
        ∙ ((on_second-ok (λ e. e) (λ w. tried (host.run_setup w)) s2 p3).1
            ∙ ((on_second-ok unread snapshot s1 p2).1 ∙ guard-disk s p1)) in
      (n, ap (used setup_key) (sym same) ∙ read, below, next)

  again-returns :
      (p : Outcome LoopError (Option R) × (Disk × W))
      (rest : Disk × W → Option (Outcome LoopError R × (Disk × W)))
      → ((s : Disk × W)
          → p ≡ (ok none, s)
          → (r : Outcome LoopError R × (Disk × W)) × (rest s ≡ some r))
      → (r : Outcome LoopError R × (Disk × W)) × (again host p rest ≡ some r)
  again-returns (raised e, s) rest next = ((raised e, s), refl)
  again-returns (ok (some r), s) rest next = ((ok r, s), refl)
  again-returns (ok none, s) rest next = next s refl

  remaining_rounds :
      (fuel budget n : ℕ) (s : Disk × W)
      → used setup_key s.0 ≡ ok n
      → budget < n + fuel
      → n ≤ budget
      → (r : Outcome LoopError R × (Disk × W)) × (prepare_workspace host fuel budget s ≡ some r)
  unfolding prepare_workspace
  remaining_rounds zero budget n s h enough within = absurd (omega arith)
  remaining_rounds (suc fuel) budget n s h enough within =
      again-returns (setup_round host budget s) (prepare_workspace host fuel budget) (λ s' p.
        let (m, read, below, next) = setup_round-used budget s p in
        let same : m ≡ n = ok-injective (sym read ∙ h) in
        remaining_rounds fuel budget (suc m) s' next (omega arith) (omega arith))

  -- The loop ends, whatever the durable counter holds: one round more than the budget is enough.
  pub prepare_workspace-returns :
      (budget : ℕ) (s : Disk × W)
      → (r : Outcome LoopError R × (Disk × W)) × (prepare_workspace host (suc budget) budget s
          ≡ some r)
  unfolding prepare_workspace
  prepare_workspace-returns budget s =
      again-returns (setup_round host budget s) (prepare_workspace host budget budget) (λ s' p.
        let (n, read, below, next) = setup_round-used budget s p in
        remaining_rounds budget budget (suc n) s' next (omega arith) (omega arith))
