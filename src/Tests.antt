-- ===== src/Tests.antt =====
-- Runs of the controllers at concrete data, and the theorems at such data.
mod Finalizers
mod MachineData
mod MachineRuns
mod MachineCreation
mod MachineReconciles
mod ClusterData
mod ClusterRuns
mod StartupRuns
mod ReleaseRuns
mod Copies
mod MachineLiveness
mod SystemRuns
mod WatchRuns
mod Bootstraps
