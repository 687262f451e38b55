-- ===== src/Tests.antt =====
-- Runs of the modelled code on small inputs, and the theorems at inputs that meet their
-- hypotheses.
mod Samples
mod ReputationRuns
mod MempoolRuns
mod EventRuns
mod BundleRuns
mod ExecutionRuns
mod Erc7562Runs
mod ValidationRuns
mod ProgramRuns
mod RpcRuns
mod TracerRuns
