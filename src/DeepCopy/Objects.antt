-- ===== src/DeepCopy/Objects.antt =====
-- The API objects as they lie in memory: a pointer, a slice or a map is the address of what it
-- refers to, or nil. Two of them share all that they refer to, or nothing.
use cluster_api_provider_bmc.Base.{ℕ, String, Bool, Option, List}
use cluster_api_provider_bmc.Api.Cluster.{ApiEndpoint}

-- `none` is nil.
abbrev pub Pointer : Type 0
Pointer = Option ℕ

-- `metav1.TypeMeta`, which holds texts only.
pub record TypeMeta : Type 0 where
  pub kind : String
  pub api_version : String

-- `resource.Quantity`: a number in a machine word, and a pointer to one that does not fit.
pub record Quantity : Type 0 where
  pub small : String
  pub big : Pointer

-- The metadata of an object, of a list or of a template, with the texts of its fields and the
-- pointers, slices and maps among them.
pub record Meta : Type 0 where
  pub texts : List String
  pub pointers : List Pointer

pub record ClusterSpec : Type 0 where
  pub location : String
  pub control_plane_endpoint : ApiEndpoint
  pub vip_manager : String

pub record ClusterStatus : Type 0 where
  pub ready : Bool
  pub error_message : Pointer
  pub id : String
  pub cidr : String
  pub bmc_status : String

pub record Cluster : Type 0 where
  pub type_meta : TypeMeta
  pub meta : Meta
  pub spec : ClusterSpec
  pub status : ClusterStatus

pub record MachineSpec : Type 0 where
  pub provider_id : Pointer
  pub description : String
  pub os : String
  pub type : String
  pub location : String
  pub install_default_ssh_keys : Pointer
  pub ssh_key_ids : Pointer
  pub network_type : String

pub record MachineStatus : Type 0 where
  pub bmc_server_id : String
  pub bmc_status : String
  pub cpu : String
  pub cpu_count : ℕ
  pub cpu_cores : ℕ
  pub cpu_frequency : Quantity
  pub ram : String
  pub storage : String
  pub private_ip_addresses : Pointer
  pub public_ip_addresses : Pointer
  pub ready : Bool
  pub addresses : Pointer
  pub failure_reason : Pointer
  pub failure_message : Pointer
  pub node_ref : Pointer

pub record Machine : Type 0 where
  pub type_meta : TypeMeta
  pub meta : Meta
  pub spec : MachineSpec
  pub status : MachineStatus

pub record TemplateResource : Type 0 where
  pub meta : Meta
  pub spec : MachineSpec

pub record TemplateSpec : Type 0 where
  pub template : TemplateResource

pub record Template : Type 0 where
  pub type_meta : TypeMeta
  pub meta : Meta
  pub spec : TemplateSpec

-- `BMCClusterList`, `BMCMachineList` and `BMCMachineTemplateList`.
pub record ObjectList : Type 0 where
  pub type_meta : TypeMeta
  pub meta : Meta
  pub items : Pointer

pub record Tag : Type 0 where
  pub name : String
  pub value : String
