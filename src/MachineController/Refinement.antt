-- ===== src/MachineController/Refinement.antt =====
-- The poll of a server does what the table of `PollSpec` says, whatever the answer of the API.
use cluster_api_provider_bmc.Base.{◌≡◌, arith, String, some}
use cluster_api_provider_bmc.Go.{returned}
use cluster_api_provider_bmc.Constants.Status
use cluster_api_provider_bmc.Outside.{Cluster}
use cluster_api_provider_bmc.MachineController.Environment.{Environment}
use cluster_api_provider_bmc.MachineController.State.{MachineContext}
use cluster_api_provider_bmc.MachineController.Synchronize.{reconcile_synchronize}
use cluster_api_provider_bmc.MachineController.PollSpec.{
  observation, status_after, wait_after, error_after,
}

module _ (env : Environment) (cluster : Cluster) (mc : MachineContext) where
  -- The BMC status after a poll is the one of the table, whatever the answer of the API: the
  -- guards of the code suppress repeated events, and never a change.
  pub synchronize-status_after :
      (reconcile_synchronize env cluster mc).0.bmc_machine.status.bmc_status
      ≡ status_after (observation env mc) mc.bmc_machine.status.bmc_status
  unfolding reconcile_synchronize
  synchronize-status_after = ground (arith, Status.powered_on-ne-error)

  -- A poll of a machine with a provider id never panics, and returns the requeue time and the
  -- error of the table.
  pub synchronize-wait_after :
      {id : String}
      → mc.bmc_machine.spec.provider_id ≡ some id
      → (reconcile_synchronize env cluster mc).1
        ≡ returned (wait_after (observation env mc)) (error_after (observation env mc))
  unfolding reconcile_synchronize
  synchronize-wait_after linked = ground arith
