-- ===== src/Coordinator/Projected.antt =====
-- What `project_exit` makes of each class of failures.
use mathlib.Core.Path.{subst}
use meta_harness.Common.{
  String, ◌≡◌, refl, sym, ap, ◌∙◌, true, false, some, arith, is_some, Option-cases, inl, inr,
}
use meta_harness.Common.Outcome.{
  ok, raised, map_raised, bind-ok, ok-injective, map_raised-eq-ok, refuse_if-eq-ok,
}
use meta_harness.Common.Text.{is_blank, before_colon, upper}
use meta_harness.Machine.Phase.{RunPhase}
use meta_harness.Machine.State.{RunDisposition}
use meta_harness.Policy.Table.{
  RecoveryStrategy, retry_targeted, fallback_executor, mark_failed_continue, wait_external,
  wait_human, hard_stop, fixable, recovery_ladder, last,
}
use meta_harness.Policy.Codes.{canonical_failure_code, lookup}
use meta_harness.Policy.Classify.{RecoveryDecision, classify_failure, class_or_fixable, rung}
use meta_harness.Policy.Boundaries.{decision, classify_failure_total}
use meta_harness.Coordinator.Exit.{
  policy_error, not_terminal, RecoveryTerminalState, terminal_disposition, terminal_state_for,
  project_exit,
}
use meta_harness.Coordinator.Stopping.{
  IsProjected, projected-IsProjected, is_external, status_of, is_end,
}

-- A failure whose class is FIXABLE, as is every code that the table does not name, has no terminal
-- projection.
pub project_exit-fixable :
    (reason code : String) (phase : RunPhase)
    → is_blank reason ≡ false
    → canonical_failure_code reason ≡ ok code
    → class_or_fixable (lookup code) ≡ fixable
    → project_exit reason phase ≡ raised not_terminal
unfolding project_exit terminal_state_for terminal_disposition rung recovery_ladder last
project_exit-fixable reason code phase filled named class =
    let (c, p, q) = classify_failure_total reason true filled in
    let same : c ≡ code = ok-injective (sym p ∙ named) in rw (filled, q, same, class) refl

terminal_disposition-end :
    (s : RecoveryStrategy) (d : RunDisposition) → terminal_disposition s ≡ some d → is_end d ≡ true
unfolding terminal_disposition
terminal_disposition-end hard_stop d h = ground arith
terminal_disposition-end wait_human d h = ground arith
terminal_disposition-end wait_external d h = ground arith
terminal_disposition-end retry_targeted d h = cc
terminal_disposition-end fallback_executor d h = cc
terminal_disposition-end mark_failed_continue d h = cc

terminal_state_for-ends :
    (x : RecoveryDecision) (code : String) (phase : RunPhase) {t : RecoveryTerminalState}
    → terminal_state_for x code phase ≡ ok t
    → (terminal_disposition x.strategy ≡ some t.disposition)
      × IsProjected t.disposition x.reason phase t
unfolding terminal_state_for
terminal_state_for-ends x code phase {t} h =
    let (filled, k) = refuse_if-eq-ok (is_blank code) _ _ h in
    elim (Option-cases (terminal_disposition x.strategy)) [
      | inl none_there ↦ cc (rw none_there at k)
      | inr (d, there) ↦
          let p =
            projected-IsProjected d (upper (before_colon code)) x.reason phase
              (terminal_disposition-end x.strategy d there) (rw there at k) in
          let same : t.disposition ≡ d = p.0 in
          (there ∙ ap some (sym same), subst (λ z. IsProjected z x.reason phase t) (sym same) p)
    ]

-- A failure that has a terminal projection: the decision is the last step of the ladder of its class,
-- the posture is the one of that step, and phase, status and resumability follow from the posture.
pub project_exit-ends :
    (reason code : String) (phase : RunPhase) {x : RecoveryDecision} {t : RecoveryTerminalState}
    → is_blank reason ≡ false
    → canonical_failure_code reason ≡ ok code
    → project_exit reason phase ≡ ok (x, t)
    → (x ≡ decision (class_or_fixable (lookup code)) true (is_some (lookup code)))
      × (terminal_disposition x.strategy ≡ some t.disposition)
      × (t.phase ≡ some phase)
      × (t.resumable ≡ is_external t.disposition)
      × (t.status ≡ status_of t.disposition)
unfolding project_exit
project_exit-ends reason code phase {x} {t} filled named h =
    let (c, p, q) = classify_failure_total reason true filled in
    let same : c ≡ code = ok-injective (sym p ∙ named) in
    let (u, k) = refuse_if-eq-ok (is_blank reason) _ _ h in
    let (y, py, ky) = bind-ok (map_raised policy_error (classify_failure reason true)) _ k in
    let (s, ps, ks) = bind-ok (terminal_state_for y reason phase) _ ky in
    let made = map_raised-eq-ok policy_error (classify_failure reason true) py in
    let pair = ok-injective ks in
    let x_is : y ≡ x = ap (λ r. r.0) pair in
    let t_is : s ≡ t = ap (λ r. r.1) pair in
    let left : terminal_state_for x reason phase ≡ ok t =
      subst (λ z. terminal_state_for z reason phase ≡ ok t) x_is (ps ∙ ap ok t_is) in
    let (there, (d, ph, re, st, rs)) = terminal_state_for-ends x reason phase left in
    (
      sym x_is
          ∙ (ok-injective (sym made ∙ q)
              ∙ ap (λ z. decision (class_or_fixable (lookup z)) true (is_some (lookup z))) same),
      there,
      ph,
      re,
      st,
    )
