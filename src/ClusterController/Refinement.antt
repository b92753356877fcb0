-- ===== src/ClusterController/Refinement.antt =====
-- The poll of an address block does what the table of `PollSpec` says, whatever the answer of the
-- API, and a failure that lasts is reported once.
use cluster_api_provider_bmc.Base.{◌≡◌, arith, [], ◌∷◌}
use cluster_api_provider_bmc.Go.{returned}
use cluster_api_provider_bmc.Outside.{call, calls}
use cluster_api_provider_bmc.ClusterController.State.{
  Environment, ClusterContext, emit, get_ip_allocation_id,
}
use cluster_api_provider_bmc.ClusterController.Synchronize.{reconcile_synchronize, get_block_call}
use cluster_api_provider_bmc.ClusterController.PollSpec.{
  observation, status_after, wait_after, error_after, IsFailure,
}

module _ (env : Environment) (cc : ClusterContext) where
  -- A poll makes one call, which reads the cluster's own block. The BMC status after it, the
  -- requeue time and the error are those of the table, and it never panics. The metadata, the
  -- specification and the Cluster are left alone.
  pub cluster_synchronize_refines :
      cc.trace ≡ []
      → let o = observation env cc in
        let (cc', outcome) = reconcile_synchronize env cc in
        (cc'.bmc_cluster.status.bmc_status ≡ status_after o cc.bmc_cluster.status.bmc_status)
        × (outcome ≡ returned (wait_after o) (error_after o))
        × (calls cc'.trace ≡ get_block_call env (get_ip_allocation_id cc.bmc_cluster) ∷ [])
        × (cc'.bmc_cluster.meta ≡ cc.bmc_cluster.meta)
        × (cc'.bmc_cluster.spec ≡ cc.bmc_cluster.spec)
        × (cc'.cluster ≡ cc.cluster)
  unfolding reconcile_synchronize
  cluster_synchronize_refines fresh = ground arith

  -- If a poll fails and the next one gets the same answer, the next one changes nothing and
  -- records no event: all that it does is its call.
  pub cluster_synchronize_quiet :
      IsFailure (observation env cc)
      → let again = (reconcile_synchronize env cc).0 in
        (reconcile_synchronize env again).0
        ≡ emit (call (get_block_call env (get_ip_allocation_id cc.bmc_cluster))) again
  unfolding reconcile_synchronize get_ip_allocation_id
  cluster_synchronize_quiet failing = ground arith
