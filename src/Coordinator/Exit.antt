-- ===== src/Coordinator/Exit.antt =====
-- orchestration/recovery.py: the projection of a failure that left its recovery loop onto a durable
-- run status.
use meta_harness.Common.{String, Bool, true, not, Option, none, some, ◌==◌, if◌then◌else◌}
use meta_harness.Common.Outcome.{Outcome, ok, raised, ◌>>=◌, ◌>>◌, refuse_if, map_raised}
use meta_harness.Common.Text.{strip, is_blank, before_colon, upper}
use meta_harness.Machine.Phase.{RunPhase}
use meta_harness.Machine.State.{
  RunDisposition, running, wait_external as to_wait_external, wait_human as to_wait_human, failed,
  MachineError, make_state, RunEvent, wait, fail,
}
use meta_harness.Machine.Transition.{transition}
use meta_harness.Machine.Projection.{RunStatus, project_run_outcome}
use meta_harness.Policy.Table.{RecoveryStrategy, wait_external, wait_human, hard_stop}
use meta_harness.Policy.Codes.{PolicyError, canonical_failure_code}
use meta_harness.Policy.Classify.{RecoveryDecision, classify_failure}

-- The places that raise, and what the called functions raise.
pub data ExitError : Type 0 where
  blank_code not_terminal : ExitError
  machine_error : MachineError → ExitError
  policy_error : PolicyError → ExitError

pub record RecoveryTerminalState : Type 0 where
  pub status : RunStatus
  pub resumable : Bool
  pub reason : String
  pub disposition : RunDisposition
  pub phase : Option RunPhase

-- `_TERMINAL_RUN_DISPOSITIONS.get(strategy)`
unfoldable pub terminal_disposition : RecoveryStrategy → Option RunDisposition
terminal_disposition hard_stop = some failed
terminal_disposition wait_human = some to_wait_human
terminal_disposition wait_external = some to_wait_external
terminal_disposition _ = none

-- `failure_code`
unfoldable pub failure_code : String → Outcome ExitError String
failure_code reason =
    if is_blank reason then raised blank_code else ok (upper (strip (before_colon reason)))

-- The event of `terminal_state_for`.
unfoldable pub terminal_event : RunDisposition → String → Outcome MachineError RunEvent
terminal_event failed code = fail (some code)
terminal_event d code = wait d (some code)

-- The last part of `terminal_state_for`, at a posture.
unfoldable pub projected :
    RunDisposition → String → String → RunPhase → Outcome ExitError RecoveryTerminalState
unfolding terminal_event
projected d code reason phase = do
  event ← map_raised machine_error (terminal_event d code)
  at ← map_raised machine_error (make_state (some phase) running none)
  next ← map_raised machine_error (transition at event)
  outcome ← map_raised machine_error (project_run_outcome next)
  ok (record {
    status = outcome.status;
    resumable = outcome.resumable;
    reason = reason;
    disposition = outcome.disposition;
    phase = outcome.phase;
  })

-- `terminal_state_for`
unfoldable pub terminal_state_for :
    RecoveryDecision → String → RunPhase → Outcome ExitError RecoveryTerminalState
unfolding projected terminal_disposition
terminal_state_for decision code phase = do
  refuse_if (is_blank code) blank_code
  elim (terminal_disposition decision.strategy) [
    | none ↦ raised not_terminal
    | some d ↦ projected d (upper (before_colon code)) decision.reason phase
  ]

-- `project_exit`
unfoldable pub project_exit :
    String → RunPhase → Outcome ExitError (RecoveryDecision × RecoveryTerminalState)
unfolding terminal_state_for
project_exit reason phase = do
  refuse_if (is_blank reason) blank_code
  decision ← map_raised policy_error (classify_failure reason true)
  state ← terminal_state_for decision reason phase
  ok (decision, state)

-- `normalize_exit_reason`
unfoldable pub normalize_exit_reason : String → Outcome ExitError String
unfolding failure_code
normalize_exit_reason reason = do
  refuse_if (is_blank reason) blank_code
  code ← failure_code reason
  canonical ← map_raised policy_error (canonical_failure_code code)
  ok (if not (canonical == code) then canonical else reason)
