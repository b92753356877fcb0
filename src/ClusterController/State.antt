-- ===== src/ClusterController/State.antt =====
-- `ClusterContext` of controllers/closures.go with its methods, and what a reconciliation of a
-- BMCCluster calls outside the repository. The trace holds what the recorder and the BMC client
-- were told.
use cluster_api_provider_bmc.Base.{
  ℕ, String, Bool, true, false, ◌||◌, not, Option, none, some, List, [], ◌∷◌, ◌++◌, ◌==◌, string_eq,
}
use cluster_api_provider_bmc.Go.{GoError, Flow, done, panic}
use cluster_api_provider_bmc.Go.Ip.{Ip}
use cluster_api_provider_bmc.Go.Maps.{GoMap, read, write}
use cluster_api_provider_bmc.Constants.Annotation.{bmc_cluster_ip, bmc_cluster_ip_allocation_id}
use cluster_api_provider_bmc.Api.Meta.{is_zero}
use cluster_api_provider_bmc.Api.Cluster.{
  ApiEndpoint, BmcCluster, BmcClusterStatus, cluster_finalizer,
}
use cluster_api_provider_bmc.Outside.{
  Cluster, Effect, event, FinalizerUtil, HttpRequest, HttpAnswer,
}

-- `IPBlockRequest` of controllers/bmccluster_controller.go.
pub record IpBlockRequest : Type 0 where
  pub cidr_block_size : String
  pub location : String
  pub description : String

pub record Environment : Type 0 where
  pub endpoint_url : String  -- r.BMCEndpointURL
  pub finalizers : FinalizerUtil
  pub json_error : String → GoError  -- the error of json.Unmarshal for a body that it does not accept
  pub new_request : HttpRequest → Option GoError  -- the error of http.NewRequest
  pub http : HttpRequest → HttpAnswer  -- cc.BMCClient
  pub parse_ipv6 : String → Option Ip
  pub ipv6_string : Ip → String

pub record ClusterContext : Type 0 where
  pub cluster : Cluster
  pub bmc_cluster : BmcCluster
  pub trace : List Effect

abbrev pub emit : Effect → ClusterContext → ClusterContext
emit e cc = record cc { trace = cc.trace ++ (e ∷ []) }

abbrev pub record_event : String → String → String → ClusterContext → ClusterContext
record_event eventtype reason message cc = emit (event eventtype reason message) cc

abbrev update_status : (BmcClusterStatus → BmcClusterStatus) → ClusterContext → ClusterContext
update_status f cc = record cc {
  bmc_cluster = record (cc.bmc_cluster) { status = f cc.bmc_cluster.status };
}

abbrev update_finalizers : (List String → List String) → ClusterContext → ClusterContext
update_finalizers f cc = record cc {
  bmc_cluster = record (cc.bmc_cluster) {
    meta = record (cc.bmc_cluster.meta) { finalizers = f cc.bmc_cluster.meta.finalizers };
  };
}

abbrev not_nil : Option ℕ → Bool
not_nil none = false
not_nil (some _) = true

-- `IsMarkedDeleted`; `none` is a nil `BMCCluster`.
unfoldable pub is_marked_deleted : Option BmcCluster → Bool
unfolding is_zero
is_marked_deleted none = false
is_marked_deleted (some c) =
    not_nil c.meta.deletion_timestamp || not (is_zero c.meta.deletion_timestamp)

module _ (env : Environment) where
  unfoldable pub add_fini : ClusterContext → ClusterContext
  add_fini = update_finalizers (λ fs. env.finalizers.add fs cluster_finalizer)

  unfoldable pub remove_fini : ClusterContext → ClusterContext
  remove_fini = update_finalizers (λ fs. env.finalizers.remove fs cluster_finalizer)

  unfoldable pub has_fini : BmcCluster → Bool
  has_fini c = env.finalizers.contains c.meta.finalizers cluster_finalizer

unfoldable pub get_ip_allocation_id : BmcCluster → String
get_ip_allocation_id c = read c.meta.annotations bmc_cluster_ip_allocation_id

unfoldable pub get_ip : BmcCluster → String
get_ip c = read c.meta.annotations bmc_cluster_ip

abbrev set_annotations : ClusterContext → Option GoMap → Flow ClusterContext
set_annotations cc none = panic cc
set_annotations cc (some as') = done (record cc {
  bmc_cluster = record (cc.bmc_cluster) {
    meta = record (cc.bmc_cluster.meta) { annotations = as' };
  };
})

unfoldable pub set_ip_allocation_id : String → ClusterContext → Flow ClusterContext
set_ip_allocation_id id cc =
    set_annotations cc (write cc.bmc_cluster.meta.annotations bmc_cluster_ip_allocation_id id)

unfoldable pub set_ip : String → ClusterContext → Flow ClusterContext
set_ip ip cc = set_annotations cc (write cc.bmc_cluster.meta.annotations bmc_cluster_ip ip)

unfoldable pub set_status : BmcClusterStatus → ClusterContext → ClusterContext
set_status s =
    update_status λ old. record old { id = s.id; cidr = s.cidr; bmc_status = s.bmc_status }

abbrev pub set_bmc_status : String → ClusterContext → ClusterContext
set_bmc_status s = update_status (λ old. record old { bmc_status = s })

abbrev pub get_bmc_status : ClusterContext → String
get_bmc_status cc = cc.bmc_cluster.status.bmc_status

abbrev pub is_status_equal : ClusterContext → String → Bool
is_status_equal cc s = cc.bmc_cluster.status.bmc_status == s

-- `int32(port)` keeps the one port that is passed, 6443.
unfoldable pub set_control_plane_endpoint : String → ℕ → ClusterContext → ClusterContext
set_control_plane_endpoint host port cc =
    let endpoint : ApiEndpoint = record { host = host; port = port } in
    record cc {
      bmc_cluster = record (cc.bmc_cluster) {
        spec = record (cc.bmc_cluster.spec) { control_plane_endpoint = endpoint };
      };
      cluster = record (cc.cluster) { control_plane_endpoint = endpoint };
    }

abbrev pub set_ready : ClusterContext → ClusterContext
set_ready = update_status (λ old. record old { ready = true })

abbrev pub is_ready : ClusterContext → Bool
is_ready cc = cc.bmc_cluster.status.ready
