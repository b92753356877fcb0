-- ===== src/ClusterController/Readiness.antt =====
-- When a BMCCluster becomes ready, and that it stays so.
use cluster_api_provider_bmc.Base.{◌≡◌, ◌⊎◌, arith, Bool, true, false, ◌&&◌, ◌||◌, ◌==◌, string_eq}
use cluster_api_provider_bmc.Go.Maps.{write, read-insert, read-nil}
use cluster_api_provider_bmc.Constants.Annotation
use cluster_api_provider_bmc.Constants.Status
use cluster_api_provider_bmc.Api.Cluster.{BmcCluster, vip_none, vip_kubevip}
use cluster_api_provider_bmc.ClusterController.State.{
  Environment, ClusterContext, get_ip, add_fini, remove_fini,
}
use cluster_api_provider_bmc.ClusterController.Create.{reconcile_create}
use cluster_api_provider_bmc.ClusterController.Synchronize.{reconcile_synchronize}
use cluster_api_provider_bmc.ClusterController.Delete.{reconcile_delete}
use cluster_api_provider_bmc.ClusterController.Reconcile.{reconcile_live, reconcile_context}
use cluster_api_provider_bmc.ClusterController.PollSpec.{Observation, reported, observation}

-- A cluster has no address yet, or is ready.
abbrev pub IsServed : BmcCluster → Type 0
IsServed c = (get_ip c ≡ "") ⊎ (c.status.ready ≡ true)

-- A reported status makes a cluster ready: the block is assigned and there is no VIP manager, or
-- it is unassigned and kube-vip will use it.
abbrev pub is_serving : Observation → BmcCluster → Bool
is_serving (reported ss) c =
    (ss.bmc_status == Status.assigned && c.spec.vip_manager == vip_none)
    || (ss.bmc_status == Status.not_assigned && c.spec.vip_manager == vip_kubevip)
is_serving _ c = false

create-IsServed :
    (env : Environment) (cc : ClusterContext)
    → IsServed cc.bmc_cluster
    → IsServed (reconcile_create env cc).0.bmc_cluster
unfolding reconcile_create get_ip write
create-IsServed env cc served = grind (arith, read-insert, read-nil, Annotation.allocation-ne-ip)

synchronize-IsServed :
    (env : Environment) (cc : ClusterContext)
    → IsServed cc.bmc_cluster
    → IsServed (reconcile_synchronize env cc).0.bmc_cluster
unfolding reconcile_synchronize get_ip
synchronize-IsServed env cc served = ground arith

live-IsServed :
    (env : Environment) (cc : ClusterContext)
    → IsServed cc.bmc_cluster
    → IsServed (reconcile_live env cc).0.bmc_cluster
unfolding reconcile_live add_fini get_ip
live-IsServed env cc served = ground (
  arith,
  create-IsServed env cc,
  create-IsServed env (add_fini env cc),
  synchronize-IsServed env cc,
  synchronize-IsServed env (add_fini env cc),
)

delete-IsServed :
    (env : Environment) (cc : ClusterContext)
    → IsServed cc.bmc_cluster
    → IsServed (reconcile_delete env cc).0.bmc_cluster
unfolding reconcile_delete remove_fini get_ip
delete-IsServed env cc served = ground arith

-- A run keeps the invariant that a cluster with an address is ready, whatever the answers, also if
-- it panics.
pub context-IsServed :
    (env : Environment) (cc : ClusterContext)
    → IsServed cc.bmc_cluster
    → IsServed (reconcile_context env cc).0.bmc_cluster
unfolding reconcile_context
context-IsServed env cc served = ground (arith, live-IsServed env cc, delete-IsServed env cc)

-- A poll makes a cluster that is not ready ready exactly if the reported status serves its VIP
-- manager, and leaves a ready cluster ready.
pub synchronize_ready_iff :
    (env : Environment) (cc : ClusterContext)
    → (reconcile_synchronize env cc).0.bmc_cluster.status.ready
      ≡ (cc.bmc_cluster.status.ready || is_serving (observation env cc) cc.bmc_cluster)
unfolding reconcile_synchronize
synchronize_ready_iff env cc = ground (arith, Status.assigned-ne-not_assigned)
