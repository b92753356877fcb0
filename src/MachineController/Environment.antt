-- ===== src/MachineController/Environment.antt =====
-- What a reconciliation of a BMCMachine calls outside the repository, as it answers during one
-- reconciliation, and the request that it sends to create a server.
use cluster_api_provider_bmc.Base.{ℕ, String, Bool, Option, List}
use cluster_api_provider_bmc.Go.{GoError, Try}
use cluster_api_provider_bmc.Api.Machine.{BmcMachineStatus}
use cluster_api_provider_bmc.Outside.{Machine, Node, HttpRequest, HttpAnswer, FinalizerUtil}

pub record IpBlock : Type 0 where
  pub id : String

pub record IpBlocksConfiguration : Type 0 where
  pub configuration_type : String
  pub ip_blocks : List IpBlock

pub record NetworkConfiguration : Type 0 where
  pub ip_blocks_configuration : IpBlocksConfiguration

pub record CloudInit : Type 0 where
  pub user_data : String

pub record OsConfiguration : Type 0 where
  pub cloud_init : CloudInit

pub record BmcCreateServerRequest : Type 0 where
  pub hostname : String
  pub description : String
  pub os : String
  pub type : String
  pub location : String
  pub install_default_ssh_keys : Option Bool
  pub ssh_key_ids : List String
  pub network_type : String
  pub os_configuration : OsConfiguration
  pub network_configuration : NetworkConfiguration

-- A client of the workload cluster: `remoteClient.Get`, `patch.NewHelper` and `Patch` on a node.
pub record RemoteClient : Type 0 where
  pub get_node : String → Try Node
  pub new_helper : Node → Option GoError
  pub patch : Node → Option GoError

pub record Environment : Type 0 where
  pub endpoint_url : String  -- r.BMCEndpointURL
  pub finalizers : FinalizerUtil
  pub is_control_plane_machine : Machine → Bool  -- util.IsControlPlaneMachine
  pub get_secret : String → String → Try (List (String × List ℕ))  -- namespace and name to Data
  pub unmarshal : String → Try BmcMachineStatus  -- json.Unmarshal into a zero status
  pub new_request : HttpRequest → Option GoError  -- the error of http.NewRequestWithContext
  pub http : HttpRequest → HttpAnswer  -- mc.BMCClient
  pub new_cluster_client : String → String → Try RemoteClient  -- remote.NewClusterClient
  pub core_version : String  -- corev1.SchemeGroupVersion
