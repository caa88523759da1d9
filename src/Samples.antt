-- ===== src/Samples.antt =====
-- Runs of the model at concrete inputs: tests of the definitions, and the theorems applied.
mod MachineRuns
mod PolicyRuns
mod StoreRuns
mod AttemptRuns
mod ContractRuns
mod CoordinatorRuns
mod ApprovalRuns
mod ResumeRuns
mod RetryRuns
mod UsageRuns
mod LadderRuns
mod CommitRuns
mod SettleRuns
