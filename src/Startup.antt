-- ===== src/Startup.antt =====
-- main.go: the flags, the configuration from the process environment, and the start of the manager.
pub mod Main
pub mod Order
pub mod Laws
use cluster_api_provider_bmc.Base.{
  ℕ, ◌*◌, String, Bool, false, ◌||◌, Option, none, some, List, [], ◌∷◌, ◌++◌, string_eq,
  if◌then◌else◌,
}
use cluster_api_provider_bmc.Go.{GoError, minute}
use cluster_api_provider_bmc.Go.Format.{is_empty}

-- The variables that the flags are parsed into.
pub record Flags : Type 0 where
  pub enable_leader_election : Bool
  pub leader_election_namespace : String
  pub leader_election_lease_duration : ℕ
  pub leader_election_renew_deadline : ℕ
  pub leader_election_retry_period : ℕ
  pub metrics_addr : String
  pub probe_addr : String
  pub profiler_addr : String
  pub webhook_port : ℕ
  pub reconcile_timeout : ℕ
  pub sync_period : ℕ
  pub watch_namespace : String

abbrev pub second : ℕ
second = 1_000_000_000

abbrev pub default_flags : Flags
default_flags = record {
  enable_leader_election = false;
  leader_election_namespace = "";
  leader_election_lease_duration = 15 * second;
  leader_election_renew_deadline = 10 * second;
  leader_election_retry_period = 5 * second;
  metrics_addr = ":8080";
  probe_addr = ":8081";
  profiler_addr = "";
  webhook_port = 9443;
  reconcile_timeout = 90 * minute;
  sync_period = 10 * minute;
  watch_namespace = "";
}

abbrev pub env_bmc_client_id : String
env_bmc_client_id = "BMC_CLIENT_ID"

abbrev pub env_bmc_client_secret : String
env_bmc_client_secret = "BMC_CLIENT_SECRET"

abbrev pub env_bmc_token_url : String
env_bmc_token_url = "BMC_TOKEN_URL"

abbrev pub env_bmc_endpoint_url : String
env_bmc_endpoint_url = "BMC_ENDPOINT_URL"

-- `clientcredentials.Config`
pub record ClientConfig : Type 0 where
  pub client_id : String
  pub client_secret : String
  pub token_url : String
  pub scopes : List String

-- `ctrl.Options`, with the fields that `main` sets to values of the program.
pub record ManagerOptions : Type 0 where
  pub leader_election : Bool
  pub leader_election_id : String
  pub lease_duration : ℕ
  pub renew_deadline : ℕ
  pub retry_period : ℕ
  pub leader_election_namespace : String
  pub metrics_bind_address : String
  pub health_probe_bind_address : String
  pub webhook_port : ℕ
  pub default_namespaces : Option (List String)  -- the keys of the map, which may be nil
  pub sync_period : ℕ
  pub burst_size : ℕ

-- The fields that `main` gives to either reconciler.
pub record ReconcilerConfig : Type 0 where
  pub bmc_client_config : ClientConfig
  pub bmc_endpoint_url : String
  pub recorder : String
  pub reconcile_timeout : ℕ

-- What `main` asks of the controller runtime, in order.
pub data Action : Type 0 where
  serve_profiler : String → Action
  new_manager : ManagerOptions → Action
  setup_cluster : ReconcilerConfig → Action
  setup_machine : ReconcilerConfig → Action
  add_healthz : Action
  add_readyz : Action
  start : Action

module _ (getenv : String → String) (flags : Flags) where
  unfoldable pub is_incomplete : Bool
  is_incomplete =
      is_empty (getenv env_bmc_client_id)
      || is_empty (getenv env_bmc_client_secret)
      || is_empty (getenv env_bmc_token_url)
      || is_empty (getenv env_bmc_endpoint_url)

  unfoldable pub client_config : ClientConfig
  client_config = record {
    client_id = getenv env_bmc_client_id;
    client_secret = getenv env_bmc_client_secret;
    token_url = getenv env_bmc_token_url;
    scopes = "bmc" ∷ "bmc.read" ∷ [];
  }

  unfoldable pub profiler : String
  profiler = if is_empty flags.profiler_addr then ":6060" else flags.profiler_addr

  unfoldable pub manager_options : ManagerOptions
  manager_options = record {
    leader_election = flags.enable_leader_election;
    leader_election_id = "controller-leader-election-bmc";
    lease_duration = flags.leader_election_lease_duration;
    renew_deadline = flags.leader_election_renew_deadline;
    retry_period = flags.leader_election_retry_period;
    leader_election_namespace = flags.leader_election_namespace;
    metrics_bind_address = ":8080";
    health_probe_bind_address = flags.probe_addr;
    webhook_port = flags.webhook_port;
    default_namespaces =
        if is_empty flags.watch_namespace then none else some (flags.watch_namespace ∷ []);
    sync_period = flags.sync_period;
    burst_size = 100;
  }

  unfoldable pub reconciler : String → ReconcilerConfig
  unfolding client_config
  reconciler recorder = record {
    bmc_client_config = client_config;
    bmc_endpoint_url = getenv env_bmc_endpoint_url;
    recorder = recorder;
    reconcile_timeout = flags.reconcile_timeout;
  }
