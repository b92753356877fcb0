-- ===== src/MachineController/Calls.antt =====
-- Which calls of the BMC API a poll and a deletion make.
use cluster_api_provider_bmc.Base.{◌≡◌, arith, none, [], ◌∷◌, ◌||◌, ◌==◌, string_eq, if◌then◌else◌}
use cluster_api_provider_bmc.Go.Format.{is_empty}
use cluster_api_provider_bmc.Constants.Status
use cluster_api_provider_bmc.Outside.{Cluster, calls}
use cluster_api_provider_bmc.MachineController.Environment.{Environment}
use cluster_api_provider_bmc.MachineController.State.{MachineContext, get_machine_id}
use cluster_api_provider_bmc.MachineController.Synchronize.{reconcile_synchronize, get_server_call}
use cluster_api_provider_bmc.MachineController.Delete.{reconcile_delete, deprovision_call}

-- A poll makes one call, which reads the machine's own server.
pub synchronize-calls :
    (env : Environment) (cluster : Cluster) (mc : MachineContext)
    → mc.trace ≡ []
    → calls (reconcile_synchronize env cluster mc).0.trace
      ≡ get_server_call env (get_machine_id mc.bmc_machine) ∷ []
unfolding reconcile_synchronize
synchronize-calls env cluster mc fresh = ground arith

-- A deletion whose request can be built makes no call for an orphaned machine or one with no
-- server, and otherwise one, which deprovisions the machine's own server.
pub delete-calls :
    (env : Environment) (mc : MachineContext)
    → mc.trace ≡ []
    → env.new_request (deprovision_call env (get_machine_id mc.bmc_machine)) ≡ none
    → let id = get_machine_id mc.bmc_machine in
      calls (reconcile_delete env mc).0.trace ≡ (
        if mc.bmc_machine.status.bmc_status == Status.orphaned || is_empty id
        then []
        else deprovision_call env id ∷ [])
unfolding reconcile_delete get_machine_id
delete-calls env mc fresh built = ground arith
