-- ===== src/ClusterController/Cleanup.antt =====
-- How the deletion of a BMCCluster ends, and what it does to the finalizer.
use cluster_api_provider_bmc.Base.{
  ◌≡◌, arith, Bool, true, false, none, [], ◌∷◌, ◌&&◌, ◌==◌, string_eq, if◌then◌else◌,
}
use cluster_api_provider_bmc.Go.{returned, panicked, no_requeue}
use cluster_api_provider_bmc.Constants.Status
use cluster_api_provider_bmc.Api.Cluster.{cluster_finalizer}
use cluster_api_provider_bmc.Outside.{HttpRequest, HttpAnswer, failed, answered, IsLawful, calls}
use cluster_api_provider_bmc.ClusterController.State.{
  Environment, ClusterContext, get_ip_allocation_id, has_fini, remove_fini,
}
use cluster_api_provider_bmc.ClusterController.Delete.{reconcile_delete, delete_block_call}

abbrev is_failed : HttpAnswer → Bool
is_failed (failed e) = true
is_failed (answered code body) = false

module _ (env : Environment) (cc : ClusterContext) where
  abbrev sent : HttpRequest
  sent = delete_block_call env (get_ip_allocation_id cc.bmc_cluster)

  -- The block is to be deleted, and the call fails.
  abbrev pub is_cut_off : Bool
  is_cut_off = cc.bmc_cluster.status.bmc_status == Status.not_assigned && is_failed (env.http sent)

  -- A deletion whose request can be built makes one call, the deletion of the cluster's block, if
  -- its status is that of an unassigned block, and none otherwise. It ends with no error and no
  -- requeue, and without the finalizer, whatever code BMC answers; but if the call fails it panics
  -- and leaves the object as it was.
  pub cluster_delete_ends :
      IsLawful env.finalizers
      → env.new_request sent ≡ none
      → cc.trace ≡ []
      → let (cc', outcome) = reconcile_delete env cc in
        (calls cc'.trace
          ≡ (if cc.bmc_cluster.status.bmc_status == Status.not_assigned then sent ∷ [] else []))
        × (outcome ≡ (if is_cut_off then panicked else returned no_requeue none))
        × (has_fini env cc'.bmc_cluster
            ≡ (if is_cut_off then has_fini env cc.bmc_cluster else false))
        × (cc'.bmc_cluster.status ≡ cc.bmc_cluster.status)
  unfolding reconcile_delete has_fini remove_fini
  cluster_delete_ends lawful built fresh =
      ground (arith, lawful.contains-remove cc.bmc_cluster.meta.finalizers cluster_finalizer)
