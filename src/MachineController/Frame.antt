-- ===== src/MachineController/Frame.antt =====
-- What a poll and a deletion leave alone: the Cluster API machine, the metadata and the
-- specification of the BMCMachine.
use cluster_api_provider_bmc.Base.{◌≡◌, arith}
use cluster_api_provider_bmc.Outside.{Cluster}
use cluster_api_provider_bmc.MachineController.Environment.{Environment}
use cluster_api_provider_bmc.MachineController.State.{MachineContext, get_machine_id}
use cluster_api_provider_bmc.MachineController.Synchronize.{reconcile_synchronize}
use cluster_api_provider_bmc.MachineController.Delete.{reconcile_delete}
use cluster_api_provider_bmc.MachineController.Create.{reconcile_create}
use cluster_api_provider_bmc.Api.Cluster.{BmcCluster}

module _ (env : Environment) (cluster : Cluster) (mc : MachineContext) where
  -- A poll, however it ends, changes no more than the status of the object.
  pub synchronize_frame :
      let m = (reconcile_synchronize env cluster mc).0.bmc_machine in
      (m.meta ≡ mc.bmc_machine.meta) × (m.spec ≡ mc.bmc_machine.spec)
  unfolding reconcile_synchronize
  synchronize_frame = ground arith

module _ (env : Environment) (mc : MachineContext) where
  -- A deletion, however it ends, keeps the annotations and the specification of the object.
  pub delete_frame :
      let m = (reconcile_delete env mc).0.bmc_machine in
      (m.meta.annotations ≡ mc.bmc_machine.meta.annotations) × (m.spec ≡ mc.bmc_machine.spec)
  unfolding reconcile_delete get_machine_id
  delete_frame = ground arith

-- A creation, however it ends, keeps the finalizers.
pub create-finalizers :
    (env : Environment) (c : BmcCluster) (mc : MachineContext)
    → (reconcile_create env c mc).0.bmc_machine.meta.finalizers ≡ mc.bmc_machine.meta.finalizers
unfolding reconcile_create
create-finalizers env c mc = ground arith
