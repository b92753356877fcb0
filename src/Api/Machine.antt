-- ===== src/Api/Machine.antt =====
-- api/v1beta1/bmcmachine_types.go. The string types of the source (`ServerOS`, `ServerType`,
-- `LocationID`, `NetworkType`) are texts.
use cluster_api_provider_bmc.Base.{ℕ, String, Bool, Option, List}
use cluster_api_provider_bmc.Api.Meta.{ObjectMeta}

abbrev pub machine_finalizer : String
machine_finalizer = "bmcmachine.infrastructure.cluster.x-k8s.io"

pub record BmcMachineSpec : Type 0 where
  pub provider_id : Option String
  pub description : String
  pub os : String
  pub type : String
  pub location : String
  pub install_default_ssh_keys : Option Bool
  pub ssh_key_ids : List String
  pub network_type : String

-- `corev1.NodeAddress`; the source makes external addresses only.
pub data NodeAddressType : Type 0 where
  node_external_ip : NodeAddressType
  other : String → NodeAddressType

pub record NodeAddress : Type 0 where
  pub type : NodeAddressType
  pub address : String

-- `errors.MachineStatusError` of the Cluster API, by the two constants that the source names.
pub data MachineStatusError : Type 0 where
  invalid_configuration_machine_error : MachineStatusError
  create_machine_error : MachineStatusError
  other : String → MachineStatusError

-- `corev1.ObjectReference`, with the fields that the source sets.
pub record ObjectReference : Type 0 where
  pub api_version : String
  pub kind : String
  pub name : String
  pub uid : String

-- The `int32` fields and the `resource.Quantity` are only copied: the former stand here as their
-- bit patterns, the latter as its printed form.
pub record BmcMachineStatus : Type 0 where
  pub bmc_server_id : String
  pub bmc_status : String
  pub cpu : String
  pub cpu_count : ℕ
  pub cpu_cores : ℕ
  pub cpu_frequency : String
  pub ram : String
  pub storage : String
  pub private_ip_addresses : List String
  pub public_ip_addresses : List String
  pub ready : Bool
  pub addresses : List NodeAddress
  pub failure_reason : Option MachineStatusError
  pub failure_message : Option String
  pub node_ref : Option ObjectReference

pub record BmcMachine : Type 0 where
  pub meta : ObjectMeta
  pub spec : BmcMachineSpec
  pub status : BmcMachineStatus
