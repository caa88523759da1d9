-- ===== src/Machine/State.antt =====
-- models.py: postures, machine states, events and identities, with the checks of `__post_init__`.
use meta_harness.Common.{
  String, Bool, true, false, not, Option, none, some, List, [], ◌∷◌, ◌==◌, if◌then◌else◌,
}
use meta_harness.Common.Outcome.{Outcome, ok, raised, ◌>>=◌, ◌>>◌, refuse_if}
use meta_harness.Common.Text.{strip, is_blank}
use meta_harness.Json.{Value, null, str}
use meta_harness.Machine.Phase.{RunPhase, phase_of_text}

pub data RunDisposition : Type 0 where
  running wait_external wait_human completed failed : RunDisposition

unfoldable pub disposition_value : RunDisposition → String
disposition_value running = "RUNNING"
disposition_value wait_external = "WAIT_EXTERNAL"
disposition_value wait_human = "WAIT_HUMAN"
disposition_value completed = "COMPLETED"
disposition_value failed = "FAILED"

abbrev pub all_dispositions : List RunDisposition
all_dispositions = running ∷ wait_external ∷ wait_human ∷ completed ∷ failed ∷ []

find_disposition : List RunDisposition → String → Option RunDisposition
unfolding disposition_value
find_disposition [] s = none
find_disposition (d ∷ ds) s = if disposition_value d == s then some d else find_disposition ds s

-- `RunDisposition(text)`
unfoldable pub disposition_of_text : String → Option RunDisposition
unfolding find_disposition
disposition_of_text = find_disposition all_dispositions

abbrev pub is_running : RunDisposition → Bool
is_running running = true
is_running _ = false

abbrev pub is_failed : RunDisposition → Bool
is_failed failed = true
is_failed _ = false

-- `RunDisposition.waiting`
abbrev pub waiting : RunDisposition → Bool
waiting wait_external = true
waiting wait_human = true
waiting _ = false

-- `RunDisposition.terminal`
abbrev pub terminal : RunDisposition → Bool
terminal completed = true
terminal failed = true
terminal _ = false

-- Every refusal that models.py raises, one constructor for each place.
pub data MachineError : Type 0 where
  blank_reason unknown_phase unknown_disposition unknown_status : MachineError
  terminal_run no_target advance_not_running advance_no_phase not_a_successor : MachineError
  wait_posture human_reserved complete_not_running not_completable not_waiting : MachineError
  identity_field : MachineError

-- `_run_reason`
unfoldable pub run_reason : Option String → Outcome MachineError (Option String)
run_reason none = ok none
run_reason (some s) = if is_blank s then raised blank_reason else ok (some (strip s))

pub record RunMachineState : Type 0 where
  pub phase : Option RunPhase
  pub disposition : RunDisposition
  pub reason : Option String

-- `RunMachineState(phase, disposition, reason)`, its phase and posture being members already.
unfoldable pub make_state :
    Option RunPhase → RunDisposition → Option String → Outcome MachineError RunMachineState
make_state p d r = do
  reason ← run_reason r
  ok (record { phase = p; disposition = d; reason = reason })

-- The phase of `RunMachineState.__post_init__`: a member, a text that names one, or `None`. A member
-- is its own value, since `RunPhase` is a `StrEnum`.
unfoldable pub coerce_phase : Value → Outcome MachineError (Option RunPhase)
coerce_phase null = ok none
coerce_phase (str s) = elim (phase_of_text s) [ some p ↦ ok (some p) | none ↦ raised unknown_phase ]
coerce_phase _ = raised unknown_phase

-- `RunDisposition(value)`
unfoldable pub coerce_disposition : Value → Outcome MachineError RunDisposition
coerce_disposition (str s) = elim (disposition_of_text s) [
  | some d ↦ ok d
  | none ↦ raised unknown_disposition
]
coerce_disposition _ = raised unknown_disposition

pub data RunEventKind : Type 0 where
  advance_kind wait_kind fail_kind complete_kind resume_kind : RunEventKind

pub record RunEvent : Type 0 where
  pub kind : RunEventKind
  pub target : Option RunPhase
  pub posture : Option RunDisposition
  pub reason : Option String

-- `RunEvent(kind, target, disposition, reason)`
unfoldable pub make_event :
    RunEventKind
    → Option RunPhase
    → Option RunDisposition
    → Option String
    → Outcome MachineError RunEvent
make_event k t d r = do
  reason ← run_reason r
  ok (record { kind = k; target = t; posture = d; reason = reason })

-- The class methods `advance`, `wait`, `fail`, `complete` and `resume`.
unfoldable pub advance : RunPhase → Outcome MachineError RunEvent
unfolding make_event
advance p = make_event advance_kind (some p) none none

unfoldable pub wait : RunDisposition → Option String → Outcome MachineError RunEvent
unfolding make_event
wait d r = make_event wait_kind none (some d) r

unfoldable pub fail : Option String → Outcome MachineError RunEvent
unfolding make_event
fail r = make_event fail_kind none none r

unfoldable pub complete : Outcome MachineError RunEvent
unfolding make_event
complete = make_event complete_kind none none none

unfoldable pub resume : Outcome MachineError RunEvent
unfolding make_event
resume = make_event resume_kind none none none

pub record RunIdentity : Type 0 where
  pub phase : Option RunPhase
  pub disposition : RunDisposition
  pub reason : Option String
  pub updated_at : Option String
  pub checkpoint_sha256 : Option String

abbrev present : Option String → Bool
present (some String.[]) = false
present _ = true

-- `RunIdentity.of(machine, updated_at=..., checkpoint_sha256=...)`
unfoldable pub identity_of :
    RunMachineState → Option String → Option String → Outcome MachineError RunIdentity
identity_of m u c = do
  reason ← run_reason m.reason
  refuse_if (not (present u)) identity_field
  refuse_if (not (present c)) identity_field
  ok (record {
    phase = m.phase;
    disposition = m.disposition;
    reason = reason;
    updated_at = u;
    checkpoint_sha256 = c;
  })
