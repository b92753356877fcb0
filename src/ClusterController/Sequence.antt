-- ===== src/ClusterController/Sequence.antt =====
-- Two runs of the cluster controller in a row: what the run after a creation does.
use cluster_api_provider_bmc.Base.{some, String, ◌≡◌, ◌≢◌, arith, String, none, some, [], ◌∷◌}
use cluster_api_provider_bmc.Go.{ok}
use cluster_api_provider_bmc.Go.Ip.{Ip, ip_string}
use cluster_api_provider_bmc.Api.Cluster.{BmcClusterStatus}
use cluster_api_provider_bmc.Outside.{calls}
use cluster_api_provider_bmc.ClusterController.RequestSpec.{block_request_value, marshal-parse}
use cluster_api_provider_bmc.ClusterController.Codec.{marshal, json_of_request, marshal-print}
use cluster_api_provider_bmc.Go.Json.Values.{print}
use cluster_api_provider_bmc.Go.Json.Read.{parse}
use cluster_api_provider_bmc.ClusterController.State.{
  Environment, ClusterContext, get_ip, get_ip_allocation_id, add_fini,
}
use cluster_api_provider_bmc.ClusterController.Create.{
  ip_block_request, create_block_call, endpoint_ip, reconcile_create,
}
use cluster_api_provider_bmc.ClusterController.Synchronize.{get_block_call}
use cluster_api_provider_bmc.ClusterController.Reconcile.{reconcile_live}
use cluster_api_provider_bmc.ClusterController.Refinement.{cluster_synchronize_refines}
use cluster_api_provider_bmc.ClusterController.Allocation.{Made, create_serves, create_unaddressed}

-- The context of the next run, on the object that the creation left.
abbrev pub next_context : Environment → ClusterContext → ClusterContext
next_context env ctx = record {
  cluster = ctx.cluster;
  bmc_cluster = (reconcile_create env ctx).0.bmc_cluster;
  trace = [];
}

unserved-create-calls :
    (env : Environment) (ctx : ClusterContext) {body : String}
    → ctx.trace ≡ []
    → marshal (ip_block_request ctx.bmc_cluster) ≡ ok body
    → calls (reconcile_create env ctx).0.trace ≡ create_block_call env body ∷ []
unfolding reconcile_create
unserved-create-calls env ctx fresh marshalled = ground arith

-- A creation makes one call, and the text that it posts is JSON that reads as the request for a
-- block of two addresses in the cluster's location, with a description that names the cluster.
pub create-posts_block :
    (env : Environment) (ctx : ClusterContext)
    → ctx.trace ≡ []
    → let request = ip_block_request ctx.bmc_cluster in
      let body = print (json_of_request request) in
      (calls (reconcile_create env ctx).0.trace ≡ create_block_call env body ∷ [])
      × (parse body ≡ some (block_request_value ctx.bmc_cluster))
create-posts_block env ctx fresh =
    let request = ip_block_request ctx.bmc_cluster in
    (
      unserved-create-calls env ctx fresh (marshal-print request),
      marshal-parse ctx.bmc_cluster (marshal-print request),
    )

-- A cluster with an address is polled by the id of its block, and never gets a second block.
pub served-live-calls :
    (env : Environment) (ctx : ClusterContext)
    → ctx.trace ≡ []
    → get_ip ctx.bmc_cluster ≢ ""
    → calls (reconcile_live env ctx).0.trace
      ≡ get_block_call env (get_ip_allocation_id ctx.bmc_cluster) ∷ []
unfolding reconcile_live add_fini get_ip get_ip_allocation_id
served-live-calls env ctx fresh served =
    ground (
      arith,
      cluster_synchronize_refines env ctx,
      cluster_synchronize_refines env (add_fini env ctx),
    )

unserved-live-calls :
    (env : Environment) (ctx : ClusterContext) {body : String}
    → ctx.trace ≡ []
    → get_ip ctx.bmc_cluster ≡ ""
    → marshal (ip_block_request ctx.bmc_cluster) ≡ ok body
    → calls (reconcile_live env ctx).0.trace ≡ create_block_call env body ∷ []
unfolding reconcile_live add_fini get_ip ip_block_request
unserved-live-calls env ctx fresh unserved marshalled = ground (
  arith,
  unserved-create-calls env ctx fresh marshalled,
  unserved-create-calls env (add_fini env ctx) fresh marshalled,
)

module _ (env env' : Environment) (ctx : ClusterContext) {ips : BmcClusterStatus}
    (made : Made env ctx ips) where
  -- After a run that got an address block and an address out of it, the next run, on the object
  -- that the first one left, polls that block: its one call reads the id that BMC gave.
  pub live_after_create_block :
      {addr : Ip}
      → endpoint_ip env ips.cidr ≡ some addr
      → ip_string env.ipv6_string addr ≢ ""
      → ctx.bmc_cluster.meta.annotations ≢ none
      → ctx.trace ≡ []
      → calls (reconcile_live env' (next_context env ctx)).0.trace ≡ get_block_call env' ips.id ∷ []
  live_after_create_block is_address shown annotated fresh = ground (
    arith,
    create_serves env ctx made is_address annotated fresh,
    served-live-calls env' (next_context env ctx),
  )

  -- After a run that got a block with a text that is no address, the next run asks BMC for another
  -- block.
  pub live_after_unaddressed :
      {body : String}
      → endpoint_ip env ips.cidr ≡ none
      → ctx.bmc_cluster.meta.annotations ≢ none
      → get_ip ctx.bmc_cluster ≡ ""
      → marshal (ip_block_request (next_context env ctx).bmc_cluster) ≡ ok body
      → calls (reconcile_live env' (next_context env ctx)).0.trace
        ≡ create_block_call env' body ∷ []
  live_after_unaddressed {body} no_address annotated unserved marshalled = ground (
    arith,
    create_unaddressed env ctx made no_address annotated,
    unserved-live-calls env' (next_context env ctx) {body = body},
  )
