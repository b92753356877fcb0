-- ===== src/ClusterController/Allocation.antt =====
-- What `reconcileCreate` asks of BMC, and what it keeps of the answer.
use cluster_api_provider_bmc.Base.{◌≡◌, ◌≢◌, arith, ℕ, String, true, none, some, [], ◌∷◌}
use cluster_api_provider_bmc.Go.{ok, Outcome, returned, panicked, no_requeue}
use cluster_api_provider_bmc.Go.Ip.{Ip, ip_string}
use cluster_api_provider_bmc.Go.Maps.{write, read-insert, read-nil}
use cluster_api_provider_bmc.Constants.{is_success}
use cluster_api_provider_bmc.Constants.Annotation
use cluster_api_provider_bmc.Api.Cluster.{ApiEndpoint, BmcClusterStatus}
use cluster_api_provider_bmc.Outside.{answered, calls}
use cluster_api_provider_bmc.ClusterController.Codec.{marshal}
use cluster_api_provider_bmc.ClusterController.Answer.{unmarshal}
use cluster_api_provider_bmc.ClusterController.State.{
  Environment, ClusterContext, get_ip, get_ip_allocation_id,
}
use cluster_api_provider_bmc.ClusterController.Create.{
  ip_block_request, create_block_call, endpoint_ip, reconcile_create,
}

-- BMC made an address block at this run's request, and says so in its answer.
pub record Made (env : Environment) (cc : ClusterContext) (ips : BmcClusterStatus) : Type 0 where
  pub body : String
  pub code : ℕ
  pub reply : String
  pub marshalled : marshal (ip_block_request cc.bmc_cluster) ≡ ok body
  pub success : is_success code ≡ true
  pub answer : env.http (create_block_call env body) ≡ answered code (ok reply)
  pub parsed : unmarshal env reply ≡ ok ips

module _ (env : Environment) (cc : ClusterContext) {ips : BmcClusterStatus}
    (made : Made env cc ips) where
  -- If BMC made a block whose text is an address, and the cluster has annotations, then one call
  -- was made, the cluster holds the block's id and the address after the block's first one as its
  -- address and as its endpoint at port 6443, in the Cluster too, and is ready.
  pub create_serves :
      {addr : Ip}
      → endpoint_ip env ips.cidr ≡ some addr
      → cc.bmc_cluster.meta.annotations ≢ none
      → cc.trace ≡ []
      → let (cc', outcome) = reconcile_create env cc in
        let endpoint : ApiEndpoint = record {
          host = ip_string env.ipv6_string addr;
          port = 6443;
        } in
        (get_ip cc'.bmc_cluster ≡ ip_string env.ipv6_string addr)
        × (get_ip_allocation_id cc'.bmc_cluster ≡ ips.id)
        × (cc'.bmc_cluster.spec.control_plane_endpoint ≡ endpoint)
        × (cc'.cluster.control_plane_endpoint ≡ endpoint)
        × (cc'.bmc_cluster.status.ready ≡ true)
        × (outcome ≡ returned no_requeue none)
        × (calls cc'.trace ≡ create_block_call env made.body ∷ [])
  unfolding reconcile_create get_ip get_ip_allocation_id write
  create_serves is_address annotated fresh = grind (arith, read-insert, Annotation.allocation-ne-ip)

  -- If BMC made a block and the cluster has no annotations at all, the creation panics, and the
  -- cluster has neither the block's id where it is looked for, nor an address.
  pub create_forgets_block :
      cc.bmc_cluster.meta.annotations ≡ none
      → let (cc', outcome) = reconcile_create env cc in
        (outcome ≡ panicked)
        × (get_ip_allocation_id cc'.bmc_cluster ≡ "")
        × (get_ip cc'.bmc_cluster ≡ "")
  unfolding reconcile_create get_ip get_ip_allocation_id write
  create_forgets_block bare = grind (arith, read-nil)

  -- If BMC made a block and its text is no address, the creation panics. The cluster knows the
  -- block's id then, and has no address.
  pub create_unaddressed :
      endpoint_ip env ips.cidr ≡ none
      → cc.bmc_cluster.meta.annotations ≢ none
      → let (cc', outcome) = reconcile_create env cc in
        (outcome ≡ panicked)
        × (get_ip_allocation_id cc'.bmc_cluster ≡ ips.id)
        × (get_ip cc'.bmc_cluster ≡ get_ip cc.bmc_cluster)
  unfolding reconcile_create get_ip get_ip_allocation_id write
  create_unaddressed no_address annotated = grind (arith, read-insert, Annotation.allocation-ne-ip)

-- No requeue time is asked for.
abbrev pub IsFinal : Outcome → Type 0
IsFinal (returned r e) = r ≡ no_requeue
IsFinal panicked = Unit

-- A creation never asks for a requeue after a time, whatever BMC answers, also where its service is
-- down; it retries only through an error that it returns, or through another event.
pub create-IsFinal : (env : Environment) (cc : ClusterContext) → IsFinal (reconcile_create env cc).1
unfolding reconcile_create
create-IsFinal env cc = ground arith
