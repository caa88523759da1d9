-- ===== src/Lib.antt =====
-- MetaHarness: a verification library of the parts of the harness that decide.
--
-- MetaHarness runs one task through a pipeline: plan, implement step by step, check, audit, push
-- and publish. One state machine says which operation a run is at and in which posture
-- (MetaHarness/src/metaharness/models.py); one store writes it down under a lock
-- (MetaHarness/src/metaharness/state.py), with the phase owned by a checkpoint file
-- (MetaHarness/src/metaharness/checkpoint_identity.py); one policy classifies every failure
-- (MetaHarness/src/metaharness/recovery_policy.py). A step's declared paths are normalized against
-- the tree before it runs (MetaHarness/src/metaharness/planning/normalization.py), and each process
-- that touches the candidate runs inside a Git transaction
-- (MetaHarness/src/metaharness/attempt_transaction.py). A failure asks a coordinator for one more
-- attempt, whose budgets are counters in the store
-- (MetaHarness/src/metaharness/orchestration/recovery.py). One step of a plan climbs a ladder of
-- attempts, retries and fallbacks, and its tree is accepted when it crosses the gate before a
-- commit (MetaHarness/src/metaharness/orchestration/step_execution.py and
-- MetaHarness/src/metaharness/commit_gate.py). A human decides on a plan once, in a file
-- (MetaHarness/src/metaharness/approval.py), and a stopped run is resumed at its checkpoint, if the
-- store, the policy and that decision allow it (MetaHarness/src/metaharness/resume.py).
--
-- The files:
--   Common and the files below it: shared names, exceptions as values, operations on a world,
--     Python's str methods.
--   Json: decoded JSON documents, and Python's dict over them, with the laws of reading and
--     merging.
--   Machine: models.py. Phase, State, Transition and Projection hold the code: the functions
--     `transition`, `project_run_outcome`, `assemble_run_state` and `status_of_run_state` under
--     their own names, `RunMachineState(...)` as `make_state`, `RunEvent(...)` as `make_event`.
--     Graph and Legal describe the legal steps as relations, Runs, Live and Resuming what holds of
--     every run.
--   Policy: recovery_policy.py. Table, Codes, Classify and Budget hold the code; Detail and
--     Boundaries the proofs.
--   Checkpoint: checkpoint_identity.py.
--   Store: state.py. Disk, Machine and Writes hold the code, a method `_name` as `name`; the others
--     the proofs, Fields what a write leaves to be read.
--   Attempt: attempt_transaction.py. Ownership, Audit, Transaction and Recovery hold the code, a
--     method under its own name, `_name` as `name`; Rollback, Steady, Recoverable, Proven and Gaps
--     the proofs. Recovery also has `CandidateState` and its comparison of gitops.py.
--   Contract: planning/normalization.py. Step, Normalize and Effective hold the code; Coherence and
--     Readable the proofs.
--   Coordinator: orchestration/recovery.py. Counters, Admission, Exit, Setup and Worker hold the
--     code: `used`, `consume`, `admit`, `terminal_state_for`, `project_exit`,
--     `normalize_exit_reason`, `prepare_workspace` and `admit_step_retry` under their own names;
--     Counting, Bounded, Stopping, Projected, Retries, Retried and Answered the proofs.
--   Commit: commit_gate.py. Safety and Record hold the code, under its own names; Gated, ReadBack
--     and Settled the proofs.
--   Steps: orchestration/step_execution.py. Attempt, Rung and Ladder hold `_execute_step_attempts`
--     as `execute_step_attempts`, one round of its loop as `round`; Authority, Accept and Finalize
--     hold `_accept_v2_step_tree` and `_finalize_accepted_step`. Attempt also has
--     `record_step_warnings` of orchestration/gates.py, Finalize `accepted_chain_records` of
--     orchestration/publication.py. Settle and Settling hold `_settle`, `_mark_failed_continue`,
--     the skip in `execute_cycle_step` and `settled_step_status` of orchestration/shared.py. Kept,
--     Spent, Ended, Merged, Recorded, Accepted, Settled and Continued hold the proofs. The ladder
--     asks the coordinator of Coordinator for a retry, and the acceptance calls the gate of Commit.
--   Approval: approval.py. Identity and Artifact hold the code, a constructor as `make_identity` or
--     `make_approval`; Once, Bound and ReadBack the proofs.
--   Resume: resume.py. Checkpoint and Gate hold the code, `ResumeCheckpoint(...)` as
--     `make_checkpoint` and `_parse` as `parse_checkpoint`; Stable, RoundTrip, Posture and Accepted
--     the proofs. `resume_info` returns the resumable answer or raises the refusal.
--   Usage: usage.py. Record holds the code, under its own names; Canonical a proof.
--   Samples: runs at concrete inputs.
--
-- Conventions. A raised exception is the constructor of the component's error type for the place
-- that raises it; messages are left out. Arguments have their annotated types, so a test by
-- isinstance that only guards an annotation is left out; a value out of a JSON document is a
-- `Value` and is tested as in the code. A file is what reading it gives: nothing, an error, or
-- bytes, of which the program sees the decoded document and the digest; writing and reading a
-- document gives it back. One operation of the store holds an exclusive lock, so it is one step on
-- the files, and operations of several writers are a sequence of such steps; a failing write is not
-- modelled. `_now()` is an argument. `upper` and `casefold` are exact up to characters whose image
-- leaves ASCII, which equal no text of the program. The functions of gitops.py that run Git, and
-- the security scan, are the fields of an interface (`Git`, `Heads`, `Candidates`) over a type of
-- worlds: a read returns a value or raises, an operation also gives the next world. A frozenset of
-- texts is the sorted list of its members. The ordered paths of a READ_SET and the table of their
-- anchors are one list. The setup commands, the budget guard, the clock and the archive of an
-- attempt are the fields of an interface (`SetupHost`); so are the worker, the fast gate and the
-- budget guard of a ladder (`LadderHost`), and the reading of the worker's report, the patch file
-- and the commit of an acceptance (`AcceptHost`), and the archive and the steps of the composition
-- (`SettleHost`). A variable that a loop changes is a field of its state, `Rung`. A JSON file of
-- the run's directory that a step reads is the document in it, as `json_text` prints it; whether it
-- is within the limit of a read is a parameter (`fits`, `readable`), and a file that is not is read
-- as `None`. The load and the write of a counter are two operations of the store, and no other
-- writer comes between them. A float of a JSON document is compared by its spelling, with floats
-- only.
--
-- Fuel. The loop of `prepare_workspace` has one unit for each round; one more than the budget is
-- enough, as each further round consumes one unit of it. The ladder of a step has one unit for each
-- round too, and needs one more than the retries and fallbacks that `step_attempts` allows: `suc
-- (attempts - 1)`. `digits` of a number n has n + 1 rounds, each of which divides by ten. The other
-- functions recurse on their data.
--
-- Not modelled: the Git executable, processes, HTTP, the user interfaces and the command line;
-- floats and dates (the two float limits of the budget and its wall clock); the trace of the
-- coordinator and of the ladder; the report of a worker, which `parse_deferred_verification` and
-- `step_verification` read by regular expressions; the order of the steps of a cycle; the step
-- candidate on disk; the check authority file and the polling of an approval; the preflight
-- verdicts and the retries of gates; the directories that usage records are read from.
pub mod Common
pub mod Json
pub mod Machine
pub mod Policy
pub mod Checkpoint
pub mod Store
pub mod Attempt
pub mod Contract
pub mod Commit
pub mod Coordinator
pub mod Approval
pub mod Resume
pub mod Steps
pub mod Usage
pub mod Samples
