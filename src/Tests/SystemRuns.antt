-- ===== src/Tests/SystemRuns.antt =====
-- Runs of both controllers, and of a controller with the store of its objects, at concrete data.
use cluster_api_provider_bmc.Base.{
  ◌≡◌, refl, arith, true, false, none, some, [], ◌∷◌, inl, string_dec, Bool,
}
use cluster_api_provider_bmc.Go.{ok, err}
use cluster_api_provider_bmc.Go.Maps.{read, lookup}
use cluster_api_provider_bmc.Api.Cluster.{BmcCluster}
use cluster_api_provider_bmc.ClusterController.State.{
  Environment, has_fini, add_fini, is_marked_deleted, get_ip, get_ip_allocation_id,
}
use cluster_api_provider_bmc.ClusterController.Reconcile as ClusterReconcile
use cluster_api_provider_bmc.ClusterController.Founded.{Prints, IsGrown, reconcile-IsGrown}
use cluster_api_provider_bmc.ClusterController.History as ClusterHistory
use cluster_api_provider_bmc.MachineController.Reconcile.{reconcile, with_owner, reconcile_context}
use cluster_api_provider_bmc.MachineController.History.{Turn, run_of}
use cluster_api_provider_bmc.System.Store.{
  ApiServer, Collects, stored, Life, ended, next, after, AllIdle,
}
use cluster_api_provider_bmc.System.Abandoned.{IsDoomed, deleted-AllIdle, refused-AllIdle}
use cluster_api_provider_bmc.MachineController.Cleanup.{wants_retry}
use cluster_api_provider_bmc.MachineController.Delete.{reconcile_delete, deprovision_call}
use cluster_api_provider_bmc.MachineController.State.{get_machine_id}
use cluster_api_provider_bmc.MachineController.State as MachineState
use cluster_api_provider_bmc.Api.Meta.{ObjectMeta}
use cluster_api_provider_bmc.Api.Machine.{BmcMachine, machine_finalizer}
use cluster_api_provider_bmc.Outside.{failed, calls}
use cluster_api_provider_bmc.System.Placement.{
  start, cluster_run, machine_run, AllPlaced, Joint-AllPlaced,
}
use cluster_api_provider_bmc.Go.Ip.{dotted}
use cluster_api_provider_bmc.ClusterController.Create.{reconcile_create}
use cluster_api_provider_bmc.ClusterController.Endpoint.{create_endpoint}
use cluster_api_provider_bmc.Tests.Finalizers.{contains, remove}
use cluster_api_provider_bmc.Tests.ClusterRuns.{made_in}
use cluster_api_provider_bmc.Tests.MachineData as MachineData
use cluster_api_provider_bmc.Tests.MachineData.{cluster, machine, served, fresh, says, lookups_of}
use cluster_api_provider_bmc.Tests.ClusterData.{block, new_cluster, context_of, world, success}

-- BMC makes the block 10.0.0.2/31 for the cluster.
abbrev making : Environment
making = world (success (block (dotted 10 0 0 2 "/31") "creating"))

abbrev first_turn : ClusterHistory.Turn
first_turn = record {
  env = making;
  lookups = record {
    get_bmc_cluster = λ namespace name. ok new_cluster;
    get_owner_cluster = λ c. ok (some cluster);
    is_paused = λ cluster' c. false;
    ignore_not_found = λ e. some e;
  };
  namespace = "default";
  name = "capi";
}

-- The cluster as that run leaves it.
abbrev made : BmcCluster
made = (ClusterReconcile.reconcile_context making (context_of new_cluster)).0.bmc_cluster

prints : Prints making
unfolding string_dec
prints ip = MachineData.given "::" refl

made_ready : made.status.ready ≡ true
unfolding ClusterReconcile.reconcile_context ClusterReconcile.reconcile_live is_marked_deleted
    has_fini get_ip read lookup contains add_fini string_dec reconcile_create
made_ready =
    let ctx = add_fini making (context_of new_cluster) in
    (create_endpoint making ctx 10 0 0 2 (made_in (block (dotted 10 0 0 2 "/31") "creating") ctx)
      refl (omega arith) (omega arith) (omega arith) (omega arith) refl (ground arith) refl).3

reconcile-IsGrown_example : IsGrown new_cluster made
unfolding ClusterReconcile.reconcile ClusterReconcile.with_owner
reconcile-IsGrown_example =
    reconcile-IsGrown first_turn.env first_turn.lookups "default" "capi" refl prints (inl refl) refl

-- Then a machine of the cluster asks for its server.
abbrev second_turn : Turn
second_turn = record {
  env = MachineData.world (says "powered-on");
  lookups = record (lookups_of (fresh (some (("team", "a") ∷ []))) false) {
    get_bmc_cluster = λ namespace name. ok made;
  };
  namespace = "default";
  name = "cp-1";
}

sees_made : {d : BmcCluster} → second_turn.lookups.get_bmc_cluster "" "" ≡ ok d → d ≡ made
sees_made e = cc

Joint-AllPlaced_example : AllPlaced (get_ip_allocation_id made) (second_turn ∷ [])
unfolding ClusterReconcile.reconcile ClusterReconcile.with_owner
Joint-AllPlaced_example =
    Joint-AllPlaced
      (machine_run second_turn (cluster_run first_turn start prints refl refl) (record {
        plane = λ m. refl;
        same = λ namespace name e. sees_made e;
        reported = λ m found ready. made_ready;
      }))
      (inl refl) refl

-- An API server that removes what is marked as deleted and has no finalizers.
abbrev removes : ObjectMeta → Bool
removes meta = elim meta.deletion_timestamp [
  | none ↦ false
  | some t ↦ elim meta.finalizers [ [] ↦ true | f ∷ fs ↦ false ]
]

abbrev server : ApiServer
server = record { removes = removes; not_found = MachineData.lost }

server-Collects : Collects server
server-Collects = record { collects = λ meta marked bare. ground arith }

-- A machine that is marked as deleted and has the server `s1`.
abbrev unwanted : BmcMachine
unwanted = record (served "powered-on" (some 7)) {
  meta = record (served "powered-on" (some 7)).meta { finalizers = machine_finalizer ∷ [] };
}

abbrev unreachable : Turn
unreachable = record {
  env = MachineData.world (failed MachineData.lost);
  lookups = lookups_of unwanted false;
  namespace = "default";
  name = "cp-1";
}

-- BMC can be reached again, and the object is not found.
abbrev later : Turn
later = record unreachable {
  env = MachineData.world (says "{}");
  lookups = record (lookups_of unwanted false) {
    get_bmc_machine = λ namespace name. err MachineData.lost;
    ignore_not_found = λ e. none;
  };
}

unwanted-IsDoomed : IsDoomed unreachable unwanted
unfolding remove string_dec
unwanted-IsDoomed = record { time = 7; owner = machine; marked = refl; owned = refl; alone = refl }

two_runs : Life server (stored unwanted) (unreachable ∷ later ∷ [])
unfolding after reconcile with_owner reconcile_context reconcile_delete get_machine_id string_dec
    read lookup remove MachineState.is_marked_deleted
two_runs = next unreachable refl (next later (refl, refl) ended)

deleted-AllIdle_example : AllIdle (later ∷ [])
deleted-AllIdle_example =
    deleted-AllIdle server server-Collects unreachable unwanted unwanted-IsDoomed two_runs

refused-AllIdle_example :
    (wants_retry (run_of unreachable).outcome ≡ true)
    × (calls (run_of unreachable).trace
        ≡ deprovision_call unreachable.env (get_machine_id unwanted) ∷ [])
    × AllIdle (later ∷ [])
unfolding get_machine_id string_dec read lookup
refused-AllIdle_example =
    refused-AllIdle server server-Collects unreachable unwanted unwanted-IsDoomed
      (record { attached = refl; built = refl; refused = refl }) two_runs
