-- ===== src/Coordinator/Setup.antt =====
-- orchestration/recovery.py: the loop of `CheckInfrastructureRecovery.prepare_workspace`. Its trace is
-- left out; the setup commands, the global budget guard, the clock and the archive of the attempt's
-- files are the fields of an interface.
use meta_harness.Common.{ℕ, zero, suc, String, not, Option, none, some, []}
use meta_harness.Common.Outcome.{Outcome, ok, raised}
use meta_harness.Common.Effect.{
  on_first, on_second, Effect, ◌>>=◌, ◌>>◌, reading, giving, refusing_if,
}
use meta_harness.Json.{arr, Items, nil, cons, Fields, end, field}
use meta_harness.Store.Disk.{Disk}
use meta_harness.Store.Writes.{update_metadata}
use meta_harness.Attempt.Audit.{GitFailure}
use meta_harness.Attempt.Recovery.{
  CandidateState, Candidates, SideEffect, ContainmentError, contain_trusted_process,
}
use meta_harness.Coordinator.Counters.{CoordinatorError, store_error, budget_key}
use meta_harness.Coordinator.Admission.{AdmitRequest, admit}

-- What the setup commands raise: a `WorkspaceSetupError` with its code and the results as
-- dictionaries, or another exception, which the loop does not catch.
pub data SetupRaise : Type 0 where
  workspace_setup_error : String → Items → SetupRaise
  other_exception : String → SetupRaise

-- What the loop calls, over a world of a worktree and the run's directory; `R` is what the setup
-- commands return.
pub record SetupHost (W R : Type 0) : Type 0 where
  pub candidates : Candidates W
  pub budget_exhausted : W → Option String
  pub run_setup : Effect SetupRaise W R
  pub tick : W → String × W
  pub archive_attempt_tree : Effect String W (Unit {0})

-- The places where the loop raises.
pub data LoopError : Type 0 where
  budget_reached : String → LoopError
  unread : GitFailure → LoopError
  setup_escaped : String → LoopError
  uncontained : ContainmentError → LoopError
  coordinator : CoordinatorError → LoopError
  setup_exhausted : String → LoopError
  not_archived : String → LoopError

-- `try: results = run_setup()` with its `except`
unfoldable pub tried :
    {W R : Type 0} → Outcome SetupRaise R × W → Outcome LoopError (Outcome (String × Items) R) × W
tried (ok r, w) = (ok (ok r), w)
tried (raised (workspace_setup_error code results), w) = (ok (raised (code, results)), w)
tried (raised (other_exception e), w) = (raised (setup_escaped e), w)

unfoldable pub setup_key : String
unfolding budget_key
setup_key = budget_key "workspace-setup" []

-- `(after.after if after else before).candidate_tree`
unfoldable pub contained_tree : CandidateState → Option SideEffect → String
contained_tree before none = before.candidate_tree
contained_tree before (some effect) = effect.after.candidate_tree

unfoldable pub setup_request : ℕ → String → String → String → AdmitRequest
unfolding setup_key
setup_request budget code before after = record {
  key = setup_key;
  reason = code;
  budget = budget;
  phase = "workspace setup";
  cycle = none;
  step_id = none;
  profile_id = none;
  tree_before = some before;
  tree_after = some after;
  allowed = none;
  strategy = none;
}

abbrev guarded : Option String → Outcome LoopError (Unit {0})
guarded none = ok tt
guarded (some reason) = raised (budget_reached reason)

abbrev pub setup_fields : Items → Fields
setup_fields results = field "workspace_setup" (arr results) end

module _ {W R : Type 0} (host : SetupHost W R) where
  -- `_now()`
  unfoldable pub now_then :
      {A : Type 0} → (String → Effect LoopError (Disk × W) A) → Effect LoopError (Disk × W) A
  now_then f (d, w) = f (host.tick w).0 (d, (host.tick w).1)

  -- `_guard()`
  unfoldable pub guard : Effect LoopError (Disk × W) (Unit {0})
  guard (d, w) = (guarded (host.budget_exhausted w), (d, w))

  -- `if error.results: update_metadata(workspace_setup=...)`
  unfoldable pub note_results : Items → Effect LoopError (Disk × W) (Unit {0})
  unfolding now_then
  note_results nil = giving (ok tt)
  note_results (cons v vs) = now_then (λ now. do
    written ←
        on_first (λ e. coordinator (store_error e))
          (update_metadata now none (setup_fields (cons v vs)))
    giving (ok tt))

  unfoldable pub after_failure :
      ℕ → String → String → String → Items → Effect LoopError (Disk × W) (Option R)
  unfolding note_results now_then setup_request
  after_failure budget before after code results = do
    note_results results
    admission ←
        now_then (λ now. on_first coordinator (admit now (setup_request budget code before after)))
    refusing_if (not admission.admitted) (setup_exhausted code)
    on_second not_archived host.archive_attempt_tree
    giving (ok none)

  unfoldable pub after_setup :
      ℕ
      → CandidateState
      → Option SideEffect
      → Outcome (String × Items) R
      → Effect LoopError (Disk × W) (Option R)
  unfolding after_failure contained_tree
  after_setup budget before effect (ok r) = giving (ok (some r))
  after_setup budget before effect (raised (code, results)) =
      after_failure budget before.candidate_tree (contained_tree before effect) code results

  -- One round of the loop: its result, or `none` when the loop goes on.
  unfoldable pub setup_round : ℕ → Effect LoopError (Disk × W) (Option R)
  unfolding guard tried after_setup
  setup_round budget = do
    guard
    before ← on_second unread (reading host.candidates.snapshot_candidate_state)
    outcome ← on_second (λ e. e) (λ w. tried (host.run_setup w))
    effect ← on_second uncontained (contain_trusted_process host.candidates before)
    after_setup budget before effect outcome

  abbrev pub again :
      Outcome LoopError (Option R) × (Disk × W)
      → (Disk × W → Option (Outcome LoopError R × (Disk × W)))
      → Option (Outcome LoopError R × (Disk × W))
  again (raised e, s) rest = some (raised e, s)
  again (ok (some r), s) rest = some (ok r, s)
  again (ok none, s) rest = rest s

  -- `prepare_workspace`, with fuel for its rounds: `none` when it runs out.
  unfoldable pub prepare_workspace : ℕ → ℕ → Disk × W → Option (Outcome LoopError R × (Disk × W))
  unfolding setup_round
  prepare_workspace zero budget s = none
  prepare_workspace (suc fuel) budget s =
      again (setup_round budget s) (prepare_workspace fuel budget)
