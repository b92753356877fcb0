-- ===== src/Tests/Bootstraps.antt =====
-- A machine from its creation to its readiness, and a cluster from its creation on.
use cluster_api_provider_bmc.Base.{
  ◌≡◌, ◌≢◌, refl, arith, true, false, some, none, [], ◌∷◌, string_dec,
}
use cluster_api_provider_bmc.Go.{ok}
use cluster_api_provider_bmc.Go.Ip.{
  dotted, v4, ip_string, trim_suffix, parse_ip, scan, parse_ipv4, parse_fields,
}
use cluster_api_provider_bmc.Api.Cluster.{BmcCluster, BmcClusterStatus}
use cluster_api_provider_bmc.Outside.{answered}
use cluster_api_provider_bmc.ClusterController.State as ClusterState
use cluster_api_provider_bmc.ClusterController.Create.{endpoint_ip}
use cluster_api_provider_bmc.ClusterController.Reconcile as ClusterReconcile
use cluster_api_provider_bmc.ClusterController.History as ClusterHistory
use cluster_api_provider_bmc.ClusterController.Lifetime
use cluster_api_provider_bmc.Tests.ClusterData
use cluster_api_provider_bmc.Tests.ClusterData.{block, new_cluster, success}
use cluster_api_provider_bmc.Tests.ClusterRuns.{made_in}
use cluster_api_provider_bmc.Go.Maps.{read, lookup, write}
use cluster_api_provider_bmc.Constants.Status
use cluster_api_provider_bmc.Api.Machine.{BmcMachine}
use cluster_api_provider_bmc.MachineController.Environment.{Environment}
use cluster_api_provider_bmc.MachineController.State.{
  get_machine_id, is_marked_deleted, provider_id_of, has_fini, add_fini, get_data_secret_value,
  get_cluster_ip_allocation_id,
}
use cluster_api_provider_bmc.MachineController.Codec.{marshal}
use cluster_api_provider_bmc.MachineController.Create.{reconcile_create, network_request}
use cluster_api_provider_bmc.MachineController.Reconcile.{reconcile_live}
use cluster_api_provider_bmc.Tests.Finalizers.{contains}
use cluster_api_provider_bmc.MachineController.History.{Turn, run_of, start, OnlyAbout}
use cluster_api_provider_bmc.MachineController.Liveness.{IsDue}
use cluster_api_provider_bmc.System.Bootstrap.{left_by, create-becomes_ready}
use cluster_api_provider_bmc.Tests.MachineData.{
  machine, cluster, bmc_cluster, world, says, lookups_of, given, reported_status,
}
use cluster_api_provider_bmc.Tests.MachineCreation.{new_machine, makes, is_sent, is_made}

-- A run that finds this machine, with everything it needs.
abbrev turn : Environment → BmcMachine → Turn
turn env m = record {
  env = env;
  lookups = lookups_of m false;
  namespace = "default";
  name = "cp-1";
}

machine_named : machine.data_secret_name ≢ none
machine_named = ground arith

abbrev due :
    (env : Environment) (m : BmcMachine) → is_marked_deleted (some m) ≡ false → IsDue (turn env m) m
due env m wanted = record {
  machine = machine;
  cluster = cluster;
  reference = "capi";
  bmc_cluster = bmc_cluster;
  found = refl;
  owned = refl;
  wanted = wanted;
  clustered = refl;
  referred = refl;
  provided = refl;
  active = refl;
  ready = refl;
  named = machine_named;
}

new_machine_stays : is_marked_deleted (some new_machine) ≡ false
unfolding is_marked_deleted
new_machine_stays = refl

abbrev creating : IsDue (turn makes new_machine) new_machine
creating = due makes new_machine new_machine_stays

-- The machine after the run that created its server, and the answer that it is powered on.
abbrev created : BmcMachine
created = left_by (turn makes new_machine) creating

abbrev up : Environment
up = world (says Status.powered_on)

created_stays : is_marked_deleted (some created) ≡ false
unfolding is_marked_deleted reconcile_live has_fini contains add_fini string_dec get_machine_id read
    lookup reconcile_create get_data_secret_value network_request get_cluster_ip_allocation_id
    marshal write
created_stays = refl

abbrev polling : IsDue (turn up created) created
polling = due up created created_stays

create-becomes_ready_example :
    let n' = left_by (turn up created) polling in
    ((run_of (turn makes new_machine)).patched ≡ some created)
    × ((run_of (turn up created)).patched ≡ some n')
    × (n'.status.ready ≡ true)
    × (get_machine_id n' ≡ "s1")
    × (n'.spec.provider_id ≡ some (provider_id_of "s1"))
    × OnlyAbout "s1" (turn up created ∷ [])
unfolding is_sent string_dec get_machine_id read lookup
create-becomes_ready_example =
    create-becomes_ready (turn makes new_machine) creating (is_sent (says "creating") new_machine)
      (is_made new_machine) refl (ground arith) (given "s1" refl) start (turn up created) polling
      {ss' = reported_status "s1" Status.powered_on} refl refl

-- The cluster gets the block 10.0.0.2/31 in one run, and BMC is down in the next.
abbrev first_block : BmcClusterStatus
first_block = block (dotted 10 0 0 2 "/31") "creating"

abbrev allocating : ClusterHistory.Turn
allocating = record {
  env = ClusterData.world (success first_block);
  lookups = record {
    get_bmc_cluster = λ namespace name. ok new_cluster;
    get_owner_cluster = λ c. ok (some cluster);
    is_paused = λ cluster' c. false;
    ignore_not_found = λ e. some e;
  };
  namespace = "default";
  name = "capi";
}

new_cluster_stays : ClusterState.is_marked_deleted (some new_cluster) ≡ false
unfolding ClusterState.is_marked_deleted
new_cluster_stays = refl

abbrev allocating_due : Lifetime.IsDue allocating new_cluster
allocating_due = record {
  cluster = cluster;
  found = refl;
  owned = refl;
  active = refl;
  wanted = new_cluster_stays;
}

abbrev allocated : BmcCluster
allocated = Lifetime.left_by allocating allocating_due

abbrev down_turn : ClusterHistory.Turn
down_turn = record {
  env = ClusterData.world (answered 500 (ok ""));
  lookups = record (allocating.lookups) { get_bmc_cluster = λ namespace name. ok allocated };
  namespace = "default";
  name = "capi";
}

-- The cluster after the run in which BMC was down.
abbrev stale : BmcCluster
stale =
    (ClusterReconcile.reconcile_context down_turn.env
      (ClusterData.context_of allocated)).0.bmc_cluster

down_run : (ClusterHistory.run_of down_turn).patched ≡ some stale
unfolding ClusterReconcile.reconcile ClusterReconcile.with_owner
down_run = refl

create-stays_ready_example :
    ((ClusterHistory.run_of allocating).patched ≡ some allocated)
    × (stale.status.ready ≡ true)
    × (ClusterState.get_ip stale ≡ ip_string allocating.env.ipv6_string (v4 10 0 0 3))
    × (ClusterState.get_ip_allocation_id stale ≡ "b1")
    × ClusterHistory.OnlyAbout "b1" (down_turn ∷ [])
unfolding endpoint_ip string_dec dotted trim_suffix parse_ip scan parse_ipv4 parse_fields ip_string
    ClusterState.get_ip read lookup
create-stays_ready_example =
    Lifetime.create-stays_ready allocating allocating_due {addr = v4 10 0 0 3}
      (made_in first_block (ClusterData.context_of new_cluster)) refl (given "10.0.0.3" refl) refl
      (ground arith) (ClusterHistory.run down_turn ClusterHistory.start refl down_run)
