-- ===== src/MachineController/Readiness.antt =====
-- When a BMCMachine becomes ready, with which addresses, and that it stays so.
use mathlib.Core.List.{map}
use cluster_api_provider_bmc.Base.{◌≡◌, ◌≢◌, arith, String, true, false, some, ◌⊎◌}
use cluster_api_provider_bmc.Constants.Status
use cluster_api_provider_bmc.Api.Machine.{BmcMachineStatus}
use cluster_api_provider_bmc.Outside.{Cluster}
use cluster_api_provider_bmc.MachineController.Environment.{Environment}
use cluster_api_provider_bmc.MachineController.State.{MachineContext, external_address}
use cluster_api_provider_bmc.MachineController.Synchronize.{reconcile_synchronize}
use cluster_api_provider_bmc.MachineController.Delete.{reconcile_delete}
use cluster_api_provider_bmc.MachineController.PollSpec.{observation, reported, IsPoweredOn}

module _ (env : Environment) (cluster : Cluster) (mc : MachineContext) where
  -- A poll that reports a powered-on server, of a machine with a provider id that was not ready or
  -- had another status, leaves the machine ready, and its addresses are then the public addresses
  -- of the report, as external ones, in their order.
  pub synchronize_powered_on :
      {ss : BmcMachineStatus} {id : String}
      → observation env mc ≡ reported ss
      → ss.bmc_status ≡ Status.powered_on
      → mc.bmc_machine.spec.provider_id ≡ some id
      → (mc.bmc_machine.status.ready ≡ false)
        ⊎ (mc.bmc_machine.status.bmc_status ≢ Status.powered_on)
      → let new = (reconcile_synchronize env cluster mc).0.bmc_machine.status in
        (new.ready ≡ true) × (new.addresses ≡ map external_address ss.public_ip_addresses)
  unfolding reconcile_synchronize
  synchronize_powered_on seen on linked changed = ground (arith, Status.powered_on-ne-error)

  -- A poll makes a machine ready only if it reports a powered-on server.
  pub synchronize_ready_only_if :
      mc.bmc_machine.status.ready ≡ false
      → (reconcile_synchronize env cluster mc).0.bmc_machine.status.ready ≡ true
      → IsPoweredOn (observation env mc)
  unfolding reconcile_synchronize
  synchronize_ready_only_if was now = ground (arith, Status.powered_on-ne-error)

  -- Neither a poll nor a deletion takes readiness back, whatever the answer.
  pub ready_kept :
      mc.bmc_machine.status.ready ≡ true
      → ((reconcile_synchronize env cluster mc).0.bmc_machine.status.ready ≡ true)
        × ((reconcile_delete env mc).0.bmc_machine.status.ready ≡ true)
  unfolding reconcile_synchronize reconcile_delete
  ready_kept was = ground arith
