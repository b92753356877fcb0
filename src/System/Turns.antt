-- ===== src/System/Turns.antt =====
-- One reconciliation of a control plane machine, in a cluster with no VIP manager.
use mathlib.Core.Path.{subst}
use cluster_api_provider_bmc.Base.{
  ◌≡◌, ◌⊎◌, inl, inr, ap, refl, sym, arith, String, if◌then◌else◌, true, Option, none, some, List,
  [], ◌∷◌, string_eq, Option-cases, Bool-cases,
}
use cluster_api_provider_bmc.Go.{Try, ok, err, Try-cases}
use cluster_api_provider_bmc.Api.Cluster.{BmcCluster, vip_none}
use cluster_api_provider_bmc.Api.Machine.{BmcMachine}
use cluster_api_provider_bmc.Outside.{Machine, Cluster, HttpRequest, calls}
use cluster_api_provider_bmc.MachineController.Environment.{Environment}
use cluster_api_provider_bmc.MachineController.State.{
  MachineContext, get_machine_id, get_cluster_ip_allocation_id, add_fini, has_fini,
  is_marked_deleted,
}
use cluster_api_provider_bmc.MachineController.Synchronize.{get_server_call}
use cluster_api_provider_bmc.MachineController.Delete.{reconcile_delete}
use cluster_api_provider_bmc.MachineController.Create.{reconcile_create}
use cluster_api_provider_bmc.MachineController.Reconcile.{
  Lookups, live_of, cluster_of, reconcile_live, reconcile_context, with_owner, reconcile,
}
use cluster_api_provider_bmc.MachineController.Calls.{synchronize-calls}
use cluster_api_provider_bmc.MachineController.Creation.{is_placed}
use cluster_api_provider_bmc.MachineController.History.{AllAbout, delete-AllAbout}
use cluster_api_provider_bmc.System.Servers.{OneCreation, create-OneCreation}

-- The calls read or deprovision one server; or there is at most one, which asks for a server in
-- this block, and only if the cluster is ready.
abbrev pub IsOrderly : Environment → BmcCluster → List HttpRequest → Type 0
IsOrderly env c rs =
    ((id : String) × AllAbout env id rs)
    ⊎ ((c.status.ready ≡ true) × OneCreation env (get_cluster_ip_allocation_id c) rs)

abbrev finalized : Environment → MachineContext → MachineContext
finalized env mc = if has_fini env mc.bmc_machine then mc else add_fini env mc

module _ (env : Environment) (cluster : Cluster) (c : BmcCluster) (mc : MachineContext)
    (fresh : mc.trace ≡ []) where
  abbrev live_calls : List HttpRequest
  live_calls = calls (reconcile_live env cluster c mc).0.trace

  live-calls_cases :
      (live_calls ≡ [])
      ⊎ (live_calls ≡ get_server_call env (get_machine_id mc.bmc_machine) ∷ [])
      ⊎ ((cluster.infrastructure_ready ≡ true)
          × (live_calls ≡ calls (reconcile_create env c (finalized env mc)).0.trace))
  unfolding reconcile_live add_fini get_machine_id
  live-calls_cases =
      ground
        (arith, synchronize-calls env cluster mc, synchronize-calls env cluster (add_fini env mc))

  finalized-trace : (finalized env mc).trace ≡ []
  unfolding add_fini
  finalized-trace = ground arith

  finalized-machine : (finalized env mc).machine ≡ mc.machine
  unfolding add_fini
  finalized-machine = ground arith

  live-IsOrderly :
      is_placed env c mc.machine ≡ true
      → (cluster.infrastructure_ready ≡ true → c.status.ready ≡ true)
      → IsOrderly env c live_calls
  live-IsOrderly plane reported = elim live-calls_cases [
    | inl e ↦ inl ("", subst (AllAbout env "") (sym e) tt)
    | inr (inl e) ↦
        let id = get_machine_id mc.bmc_machine in
        inl (id, subst (AllAbout env id) (sym e) (inl refl, tt))
    | inr (inr (ready, e)) ↦
        let block = get_cluster_ip_allocation_id c in
        let placed = subst (λ m. is_placed env c m ≡ true) (sym finalized-machine) plane in
        inr (
          reported ready,
          subst (OneCreation env block) (sym e)
              (create-OneCreation env c (finalized env mc) finalized-trace placed),
        )
  ]

delete-IsOrderly :
    (env : Environment) (c : BmcCluster) (mc : MachineContext)
    → mc.trace ≡ []
    → IsOrderly env c (calls (reconcile_delete env mc).0.trace)
delete-IsOrderly env c mc fresh =
    inl (get_machine_id mc.bmc_machine, (delete-AllAbout env mc fresh).0)

-- What a reconciliation sees of the cluster: every machine is one of its control plane, each lookup
-- of a BMCCluster that succeeds finds it, and the Cluster is reported as ready only if it is.
pub record Sees (env : Environment) (lookups : Lookups) (c : BmcCluster) : Type 0 where
  pub plane : (machine : Machine) → env.is_control_plane_machine machine ≡ true
  pub same :
      (namespace name : String) {d : BmcCluster}
      → lookups.get_bmc_cluster namespace name ≡ ok d
      → d ≡ c
  pub reported :
      (machine : Machine) {cluster : Cluster}
      → lookups.get_cluster_from_metadata machine ≡ ok cluster
      → cluster.infrastructure_ready ≡ true
      → c.status.ready ≡ true

module _ (env : Environment) (lookups : Lookups) (c : BmcCluster)
    (bare : c.spec.vip_manager ≡ vip_none) (sees : Sees env lookups c) where
  placed : (machine : Machine) → is_placed env c machine ≡ true
  placed machine = ground (arith, sees.plane machine)

  idle : (mc : MachineContext) → mc.trace ≡ [] → IsOrderly env c (calls mc.trace)
  idle mc fresh = inl ("", subst (AllAbout env "") (sym (ap calls fresh)) tt)

  live_of-IsOrderly :
      (cluster : Cluster) (d : BmcCluster) (mc : MachineContext)
      → d ≡ c
      → (cluster.infrastructure_ready ≡ true → c.status.ready ≡ true)
      → mc.trace ≡ []
      → IsOrderly env c (calls (live_of env lookups cluster d mc).0.trace)
  unfolding live_of
  live_of-IsOrderly cluster d mc same reported fresh =
      subst (λ e. IsOrderly env c (calls (live_of env lookups cluster e mc).0.trace)) (sym same)
        (elim (Bool-cases (lookups.is_paused cluster c)) [
          | inl paused ↦ rw (paused, live_of) (idle mc fresh)
          | inr active ↦
              rw (active, live_of)
                (live-IsOrderly env cluster c mc fresh (placed mc.machine) reported)
        ])

  cluster_of-IsOrderly :
      (cluster : Cluster) (mc : MachineContext)
      → (cluster.infrastructure_ready ≡ true → c.status.ready ≡ true)
      → mc.trace ≡ []
      → IsOrderly env c (calls (cluster_of env lookups cluster mc).0.trace)
  unfolding cluster_of
  cluster_of-IsOrderly cluster mc reported fresh = elim (Option-cases cluster.infrastructure_ref) [
    | inl absent ↦ simp (absent, cluster_of) (idle mc fresh)
    | inr (name, present) ↦
        elim (Try-cases (lookups.get_bmc_cluster mc.bmc_machine.meta.namespace name)) [
          | inl (e, failed) ↦ simp (present, failed, cluster_of) (idle mc fresh)
          | inr (d, found) ↦
              simp (present, found, cluster_of)
                (live_of-IsOrderly cluster d mc (sees.same mc.bmc_machine.meta.namespace name found)
                  reported fresh)
        ]
  ]

  context-IsOrderly :
      (mc : MachineContext)
      → mc.trace ≡ []
      → IsOrderly env c (calls (reconcile_context env lookups mc).0.trace)
  unfolding reconcile_context
  context-IsOrderly mc fresh = elim (Bool-cases (is_marked_deleted (some mc.bmc_machine))) [
    | inl marked ↦ rw (marked, reconcile_context) (delete-IsOrderly env c mc fresh)
    | inr wanted ↦ elim (Try-cases (lookups.get_cluster_from_metadata mc.machine)) [
      | inl (e, failed) ↦ rw (wanted, failed, reconcile_context) (idle mc fresh)
      | inr (cluster, found) ↦
          rw (wanted, found, reconcile_context)
            (cluster_of-IsOrderly cluster mc (sees.reported mc.machine found) fresh)
    ]
  ]

  with_owner-IsOrderly :
      (m : BmcMachine) (owner : Try (Option Machine))
      → IsOrderly env c (calls (with_owner env lookups m owner).trace)
  unfolding with_owner
  with_owner-IsOrderly m (err e) = inl ("", tt)
  with_owner-IsOrderly m (ok none) = inl ("", tt)
  with_owner-IsOrderly m (ok (some machine)) =
      context-IsOrderly (record { machine = machine; bmc_machine = m; trace = [] }) refl

  -- A reconciliation of a control plane machine reads or deprovisions one server, or does nothing,
  -- or asks for one server, in the block of the cluster that it sees, which is ready then.
  pub reconcile-IsOrderly :
      (namespace name : String)
      → IsOrderly env c (calls (reconcile env lookups namespace name).trace)
  unfolding reconcile
  reconcile-IsOrderly namespace name = elim (Try-cases (lookups.get_bmc_machine namespace name)) [
    | inl (e, failed) ↦ rw (failed, reconcile) (inl ("", tt))
    | inr (m, found) ↦ rw (found, reconcile) (with_owner-IsOrderly m (lookups.get_owner_machine m))
  ]
