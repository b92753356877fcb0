-- ===== src/Startup/Order.antt =====
-- How a start of the process goes: which actions, in which order, with which options, and up to
-- which error.
use cluster_api_provider_bmc.Base.{
  ◌≡◌, String, Bool, true, false, ◌&&◌, ◌||◌, not, none, some, List, [], ◌∷◌, ◌++◌, string_eq, ◌==◌,
  if◌then◌else◌,
}
use cluster_api_provider_bmc.Startup.{
  Flags, Action, serve_profiler, new_manager, setup_cluster, setup_machine, add_healthz, add_readyz,
  start, ManagerOptions, ReconcilerConfig,
}
use cluster_api_provider_bmc.Startup.Main.{Ending, exit, finished, Runtime}

abbrev is_start : Action → Bool
is_start start = true
is_start _ = false

-- The manager was started.
abbrev pub was_started : List Action → Bool
was_started [] = false
was_started (a ∷ as') = is_start a || was_started as'

-- The last of these actions made no error.
abbrev pub is_fine : Runtime → List Action → Bool
is_fine runtime log = elim (runtime log) [ none ↦ true | some e ↦ false ]

-- The first of these whose last action made an error, or else the whole.
abbrev pub first_failing : Runtime → List (List Action) → List Action → List Action
first_failing runtime [] whole = whole
first_failing runtime (log ∷ logs) whole =
    if is_fine runtime log then first_failing runtime logs whole else log

-- The manager that the flags ask for. Metrics are served at a fixed address.
abbrev pub wanted_manager : Flags → ManagerOptions
wanted_manager flags = record {
  leader_election = flags.enable_leader_election;
  leader_election_id = "controller-leader-election-bmc";
  lease_duration = flags.leader_election_lease_duration;
  renew_deadline = flags.leader_election_renew_deadline;
  retry_period = flags.leader_election_retry_period;
  leader_election_namespace = flags.leader_election_namespace;
  metrics_bind_address = ":8080";
  health_probe_bind_address = flags.probe_addr;
  webhook_port = flags.webhook_port;
  default_namespaces =
      if flags.watch_namespace == "" then none else some (flags.watch_namespace ∷ []);
  sync_period = flags.sync_period;
  burst_size = 100;
}

-- The reconciler of this name, with the credentials of the process environment.
abbrev pub wanted_reconciler : (String → String) → Flags → String → ReconcilerConfig
wanted_reconciler getenv flags name = record {
  bmc_client_config = record {
    client_id = getenv "BMC_CLIENT_ID";
    client_secret = getenv "BMC_CLIENT_SECRET";
    token_url = getenv "BMC_TOKEN_URL";
    scopes = "bmc" ∷ "bmc.read" ∷ [];
  };
  bmc_endpoint_url = getenv "BMC_ENDPOINT_URL";
  recorder = name;
  reconcile_timeout = flags.reconcile_timeout;
}

abbrev pub wanted_profiler : Flags → String
wanted_profiler flags = if flags.profiler_addr == "" then ":6060" else flags.profiler_addr

-- The four variables of the BMC configuration are set.
abbrev pub is_configured : (String → String) → Bool
is_configured getenv =
    not (getenv "BMC_CLIENT_ID" == "")
    && not (getenv "BMC_CLIENT_SECRET" == "")
    && not (getenv "BMC_TOKEN_URL" == "")
    && not (getenv "BMC_ENDPOINT_URL" == "")

-- The initial parts of the whole start: each adds one action to the one before.
module _ (getenv : String → String) (flags : Flags) where
  abbrev pub with_profiler : List Action
  with_profiler = serve_profiler (wanted_profiler flags) ∷ []

  abbrev pub with_manager : List Action
  with_manager = with_profiler ++ (new_manager (wanted_manager flags) ∷ [])

  abbrev pub with_clusters : List Action
  with_clusters =
      with_manager ++ (setup_cluster (wanted_reconciler getenv flags "bmccluster-controller") ∷ [])

  abbrev pub with_machines : List Action
  with_machines =
      with_clusters ++ (setup_machine (wanted_reconciler getenv flags "bmcmachine-controller") ∷ [])

  abbrev pub with_healthz : List Action
  with_healthz = with_machines ++ (add_healthz ∷ [])

  abbrev pub with_readyz : List Action
  with_readyz = with_healthz ++ (add_readyz ∷ [])

  abbrev pub whole_start : List Action
  whole_start = with_readyz ++ (start ∷ [])

module _ (getenv : String → String) (flags : Flags) (runtime : Runtime) where
  -- Everything before the start of the manager is done without an error, each after the ones before.
  abbrev pub is_prepared : Bool
  is_prepared =
      is_configured getenv
      && is_fine runtime (with_manager getenv flags)
      && is_fine runtime (with_clusters getenv flags)
      && is_fine runtime (with_machines getenv flags)
      && is_fine runtime (with_healthz getenv flags)
      && is_fine runtime (with_readyz getenv flags)

  -- What was done, and how the process ended, is as this says.
  abbrev pub IsStart : List Action × Ending → Type 0
  IsStart (log, ending) =
      (log ≡ (
        if is_configured getenv
        then first_failing runtime
            (with_manager getenv flags
              ∷ with_clusters getenv flags
              ∷ with_machines getenv flags
              ∷ with_healthz getenv flags
              ∷ with_readyz getenv flags
              ∷ [])
            (whole_start getenv flags)
        else []))
      × (was_started log ≡ is_prepared)
      × (ending ≡ (
          if is_prepared && is_fine runtime (whole_start getenv flags) then finished else exit 1))
