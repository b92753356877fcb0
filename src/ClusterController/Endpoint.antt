-- ===== src/ClusterController/Endpoint.antt =====
-- The address of the control plane, from the address block that BMC made.
use cluster_api_provider_bmc.Base.{ℕ, ◌+◌, ◌%◌, ◌<◌, ◌≡◌, ◌≢◌, arith, true, none, some, []}
use cluster_api_provider_bmc.Go.Ip.{v4, dotted, next_address}
use cluster_api_provider_bmc.Go.Address.{
  trim_suffix-dotted, parse_ip-dotted, ip_string-next_address,
}
use cluster_api_provider_bmc.Api.Cluster.{BmcClusterStatus}
use cluster_api_provider_bmc.ClusterController.State.{Environment, ClusterContext, get_ip}
use cluster_api_provider_bmc.ClusterController.Create.{endpoint_ip, reconcile_create}
use cluster_api_provider_bmc.ClusterController.Allocation.{Made, create_serves}

endpoint_ip-dotted :
    (env : Environment) (a b c d : ℕ)
    → a < 256
    → b < 256
    → c < 256
    → d < 256
    → endpoint_ip env (dotted a b c d "/31") ≡ some (next_address (v4 a b c d))
unfolding endpoint_ip
endpoint_ip-dotted env a b c d ha hb hc hd =
    ground (arith, trim_suffix-dotted a b c d, parse_ip-dotted env.parse_ipv6 a b c d ha hb hc hd)

-- If BMC made the IPv4 block a.b.c.d/31, whose first address is even, and the cluster has
-- annotations, then the cluster is ready, and its address and the host of its control plane
-- endpoint are a.b.c.(d+1), the second address of that block.
pub create_endpoint :
    (env : Environment) (ctx : ClusterContext) {ips : BmcClusterStatus} (a b c d : ℕ)
    → Made env ctx ips
    → ips.cidr ≡ dotted a b c d "/31"
    → a < 256
    → b < 256
    → c < 256
    → d < 256
    → d % 2 ≡ 0
    → ctx.bmc_cluster.meta.annotations ≢ none
    → ctx.trace ≡ []
    → let (ctx', _) = reconcile_create env ctx in
      (get_ip ctx'.bmc_cluster ≡ dotted a b c (d + 1) "")
      × (ctx'.bmc_cluster.spec.control_plane_endpoint.host ≡ dotted a b c (d + 1) "")
      × (ctx'.bmc_cluster.spec.control_plane_endpoint.port ≡ 6443)
      × (ctx'.bmc_cluster.status.ready ≡ true)
create_endpoint env ctx {ips} a b c d made cidr ha hb hc hd even annotated fresh =
    let parsed : endpoint_ip env ips.cidr ≡ some (next_address (v4 a b c d)) =
      rw cidr (endpoint_ip-dotted env a b c d ha hb hc hd) in
    ground (
      arith,
      create_serves env ctx made parsed annotated fresh,
      ip_string-next_address env.parse_ipv6 a b c d env.ipv6_string hd even,
    )
