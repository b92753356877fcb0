-- ===== src/Tests/MachineData.antt =====
-- A control plane machine, its cluster, and what stands around them, for runs of the machine
-- controller.
use cluster_api_provider_bmc.Base.{
  ℕ, ◌≡◌, ◌≢◌, arith, String, Bool, true, false, Option, none, some, [], ◌∷◌, string_eq,
}
use cluster_api_provider_bmc.Go.{GoError, ok}
use cluster_api_provider_bmc.Go.Format.{is_empty}
use cluster_api_provider_bmc.Go.Maps.{GoMap}
use cluster_api_provider_bmc.Constants.Annotation
use cluster_api_provider_bmc.Api.Meta.{ObjectMeta}
use cluster_api_provider_bmc.Api.Machine.{BmcMachine, BmcMachineSpec, BmcMachineStatus}
use cluster_api_provider_bmc.Api.Cluster.{BmcCluster}
use cluster_api_provider_bmc.Outside.{Machine, Cluster, HttpAnswer, answered}
use cluster_api_provider_bmc.MachineController.Environment.{Environment, RemoteClient}
use cluster_api_provider_bmc.MachineController.State.{MachineContext}
use cluster_api_provider_bmc.MachineController.Reconcile.{Lookups}
use cluster_api_provider_bmc.Tests.Finalizers.{on_lists}

abbrev pub named : String → GoMap → Option ℕ → ObjectMeta
named name as' deleted = record {
  namespace = "default";
  name = name;
  annotations = as';
  finalizers = [];
  deletion_timestamp = deleted;
}

abbrev pub machine : Machine
machine = record {
  meta = named "capi.control/1" none none;
  data_secret_name = some "bootstrap";
  infrastructure_ref_name = "cp-1";
}

abbrev pub cluster : Cluster
cluster = record {
  meta = named "capi" none none;
  infrastructure_ref = some "capi";
  infrastructure_ready = true;
  control_plane_endpoint = record { host = ""; port = 0 };
}

abbrev pub bmc_cluster : BmcCluster
bmc_cluster = record {
  meta = named "capi" (some ((Annotation.bmc_cluster_ip_allocation_id, "block7") ∷ [])) none;
  spec = record {
    location = "PHX";
    control_plane_endpoint = record { host = "10.0.0.3"; port = 6443 };
    vip_manager = "NONE";
  };
  status = record {
    ready = true;
    error_message = none;
    id = "block7";
    cidr = "10.0.0.2/31";
    bmc_status = "assigned";
  };
}

abbrev pub reported_status : String → String → BmcMachineStatus
reported_status id s = record {
  bmc_server_id = id;
  bmc_status = s;
  cpu = "E-2276G";
  cpu_count = 1;
  cpu_cores = 6;
  cpu_frequency = "3.8";
  ram = "128GB RAM";
  storage = "2x 960GB NVMe";
  private_ip_addresses = [];
  public_ip_addresses = "10.0.0.3" ∷ [];
  ready = false;
  addresses = [];
  failure_reason = none;
  failure_message = none;
  node_ref = none;
}

abbrev pub spec_of : Option String → BmcMachineSpec
spec_of provider_id = record {
  provider_id = provider_id;
  description = "node";
  os = "ubuntu/jammy";
  type = "s2.c1.medium";
  location = "PHX";
  install_default_ssh_keys = some true;
  ssh_key_ids = [];
  network_type = "PUBLIC_AND_PRIVATE";
}

-- A machine with no server, by its annotations.
abbrev pub fresh : GoMap → BmcMachine
fresh as' = record {
  meta = named "cp-1" as' none;
  spec = spec_of none;
  status = reported_status "" "";
}

-- The machine of the server `s1`, in a status.
abbrev pub served : String → Option ℕ → BmcMachine
served s deleted = record {
  meta = named "cp-1" (some ((Annotation.bmc_server_id, "s1") ∷ [])) deleted;
  spec = spec_of (some "bmc://servers/s1");
  status = reported_status "s1" s;
}

abbrev pub context_of : BmcMachine → MachineContext
context_of m = record { machine = machine; bmc_machine = m; trace = [] }

abbrev pub lost : GoError
lost = record { message = "connection refused" }

abbrev pub remote : RemoteClient
remote = record {
  get_node = λ name. ok (record { name = name; uid = "u1"; provider_id = "" });
  new_helper = λ n. none;
  patch = λ n. none;
}

-- BMC gives this answer to every call, and a body reads as the status that it spells.
abbrev pub world : HttpAnswer → Environment
world answer = record {
  endpoint_url = "https://api";
  finalizers = on_lists;
  is_control_plane_machine = λ m. true;
  get_secret = λ namespace name. ok (("value", 35 ∷ 33 ∷ []) ∷ []);
  unmarshal = λ body. ok (reported_status "s1" body);
  new_request = λ r. none;
  http = λ r. answer;
  new_cluster_client = λ namespace name. ok remote;
  core_version = "v1";
}

abbrev pub says : String → HttpAnswer
says body = answered 200 (ok body)

abbrev pub lookups_of : BmcMachine → Bool → Lookups
lookups_of m paused = record {
  get_bmc_machine = λ namespace name. ok m;
  get_bmc_cluster = λ namespace name. ok bmc_cluster;
  get_owner_machine = λ m'. ok (some machine);
  get_cluster_from_metadata = λ m'. ok cluster;
  is_paused = λ cluster' c. paused;
  ignore_not_found = λ e. some e;
}

pub given : (s : String) → is_empty s ≡ false → s ≢ ""
given s full = ground arith
