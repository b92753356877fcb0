-- ===== src/MachineController/Quiet.antt =====
-- A failure that lasts is reported once.
use cluster_api_provider_bmc.Base.{◌≡◌, arith}
use cluster_api_provider_bmc.Outside.{Cluster, call}
use cluster_api_provider_bmc.MachineController.Environment.{Environment}
use cluster_api_provider_bmc.MachineController.State.{MachineContext, emit, get_machine_id}
use cluster_api_provider_bmc.MachineController.Synchronize.{reconcile_synchronize, get_server_call}
use cluster_api_provider_bmc.MachineController.PollSpec.{IsFailure, observation}

module _ (env : Environment) (cluster : Cluster) (mc : MachineContext) where
  -- If a poll fails and the next one gets the same answer, the next one changes nothing and
  -- records no event: all that it does is its call.
  pub synchronize_quiet :
      IsFailure (observation env mc)
      → let again = (reconcile_synchronize env cluster mc).0 in
        (reconcile_synchronize env cluster again).0
        ≡ emit (call (get_server_call env (get_machine_id mc.bmc_machine))) again
  unfolding reconcile_synchronize get_machine_id
  synchronize_quiet failing = ground arith
