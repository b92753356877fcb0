-- ===== src/Api/Cluster.antt =====
-- api/v1beta1/bmccluster_types.go. `LocationID` and `VIPMANAGER` are texts.
use cluster_api_provider_bmc.Base.{ℕ, String, Bool, Option}
use cluster_api_provider_bmc.Api.Meta.{ObjectMeta}

abbrev pub cluster_finalizer : String
cluster_finalizer = "bmccluster.infrastructure.cluster.x-k8s.io"

abbrev pub vip_none : String
vip_none = "NONE"

abbrev pub vip_kubevip : String
vip_kubevip = "KUBEVIP"

-- `clusterv1.APIEndpoint`
pub record ApiEndpoint : Type 0 where
  pub host : String
  pub port : ℕ

pub record BmcClusterSpec : Type 0 where
  pub location : String
  pub control_plane_endpoint : ApiEndpoint
  pub vip_manager : String

pub record BmcClusterStatus : Type 0 where
  pub ready : Bool
  pub error_message : Option String
  pub id : String
  pub cidr : String
  pub bmc_status : String

pub record BmcCluster : Type 0 where
  pub meta : ObjectMeta
  pub spec : BmcClusterSpec
  pub status : BmcClusterStatus
