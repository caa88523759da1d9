-- ===== src/Machine/Clean.antt =====
-- Reasons that `_run_reason` returns unchanged: what every constructed state and event holds.
use meta_harness.Common.{String, ◌≡◌, refl, false, Option, none, some, arith, inl, inr, Bool-cases}
use meta_harness.Common.Outcome.{ok, bind-ok}
use meta_harness.Common.Text.{strip, is_blank, strip_idem}
use meta_harness.Machine.Phase.{RunPhase}
use meta_harness.Machine.State.{
  RunDisposition, run_reason, RunMachineState, make_state, RunEventKind, RunEvent, make_event,
}

abbrev pub IsClean : Option String → Type 0
IsClean r = run_reason r ≡ ok r

pub none-IsClean : IsClean none
unfolding run_reason
none-IsClean = refl

is_blank-strip : (s : String) → is_blank (strip s) ≡ is_blank s
unfolding is_blank
is_blank-strip s = rw strip_idem

run_reason-strip : (s : String) → is_blank s ≡ false → IsClean (some (strip s))
unfolding run_reason
run_reason-strip s h = rw (is_blank-strip s, h, strip_idem s)

-- Normalising a reason twice is normalising it once.
pub run_reason-IsClean : (r q : Option String) → run_reason r ≡ ok q → IsClean q
unfolding run_reason
run_reason-IsClean none none h = refl
run_reason-IsClean none (some q) h = cc
run_reason-IsClean (some s) q h = elim (Bool-cases (is_blank s)) [
  | inl b ↦ ground arith
  | inr b ↦ ground (arith, run_reason-strip s b)
]

pub make_event-IsClean :
    (k : RunEventKind) (t : Option RunPhase) (d : Option RunDisposition) (r : Option String)
    {e : RunEvent}
    → make_event k t d r ≡ ok e
    → IsClean e.reason
unfolding make_event
make_event-IsClean k t d r {e} h =
    let (q, a, b) = bind-ok (run_reason r) _ h in ground (arith, run_reason-IsClean r q a)

pub make_state-IsClean :
    (p : Option RunPhase) (d : RunDisposition) (r : Option String) {m : RunMachineState}
    → make_state p d r ≡ ok m
    → IsClean m.reason
unfolding make_state
make_state-IsClean p d r {m} h =
    let (q, a, b) = bind-ok (run_reason r) _ h in ground (arith, run_reason-IsClean r q a)

-- A state or an event with a clean reason is built as it stands.
pub make_state_clean :
    (p : Option RunPhase) (d : RunDisposition) (r : Option String)
    → IsClean r
    → make_state p d r ≡ ok (record { phase = p; disposition = d; reason = r })
unfolding make_state
make_state_clean p d r h = rw h

-- What a constructed state holds.
pub make_state-fields :
    (p : Option RunPhase) (d : RunDisposition) (r : Option String) {m : RunMachineState}
    → make_state p d r ≡ ok m
    → (m.phase ≡ p) × (m.disposition ≡ d) × (run_reason r ≡ ok m.reason)
unfolding make_state
make_state-fields p d r {m} h = let (q, a, b) = bind-ok (run_reason r) _ h in ground (arith, a)
