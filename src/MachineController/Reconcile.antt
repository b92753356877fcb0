-- ===== src/MachineController/Reconcile.antt =====
-- `Reconcile` and `reconcileLive` of controllers/bmcmachine_controller.go.
use cluster_api_provider_bmc.Base.{
  String, Bool, Option, none, some, List, [], string_eq, if◌then◌else◌,
}
use cluster_api_provider_bmc.Go.{GoError, Try, ok, err, Outcome, returned, panicked, no_requeue}
use cluster_api_provider_bmc.Go.Format.{is_empty}
use cluster_api_provider_bmc.Api.Machine.{BmcMachine}
use cluster_api_provider_bmc.Api.Cluster.{BmcCluster}
use cluster_api_provider_bmc.Outside.{Machine, Cluster, Effect}
use cluster_api_provider_bmc.MachineController.Environment.{Environment}
use cluster_api_provider_bmc.MachineController.State.{
  MachineContext, add_fini, has_fini, is_marked_deleted, is_infrastructure_ready,
  is_data_secret_ready, get_machine_id,
}
use cluster_api_provider_bmc.MachineController.Create.{reconcile_create}
use cluster_api_provider_bmc.MachineController.Synchronize.{reconcile_synchronize}
use cluster_api_provider_bmc.MachineController.Delete.{reconcile_delete}

-- The lookups in the API server and in the Cluster API's helpers, as they answer during one
-- reconciliation.
pub record Lookups : Type 0 where
  pub get_bmc_machine : String → String → Try BmcMachine  -- r.Get, by namespace and name
  pub get_bmc_cluster : String → String → Try BmcCluster
  pub get_owner_machine : BmcMachine → Try (Option Machine)  -- util.GetOwnerMachine
  pub get_cluster_from_metadata : Machine → Try Cluster  -- util.GetClusterFromMetadata
  pub is_paused : Cluster → BmcCluster → Bool  -- annotations.IsPaused
  pub ignore_not_found : GoError → Option GoError  -- client.IgnoreNotFound

-- What a run leaves behind. `patched` is the object that the deferred call hands to the patch
-- helper, which runs on every return after it is set up, and on a panic.
pub record Run : Type 0 where
  pub outcome : Outcome
  pub patched : Option BmcMachine
  pub trace : List Effect

module _ (env : Environment) where
  ensure_fini : MachineContext → MachineContext
  ensure_fini mc = if has_fini env mc.bmc_machine then mc else add_fini env mc

  -- Create, poll, or update?
  unfoldable pub create_or_poll : Cluster → BmcCluster → MachineContext → MachineContext × Outcome
  create_or_poll cluster bmc_cluster mc =
      if is_empty (get_machine_id mc.bmc_machine)
      then reconcile_create env bmc_cluster mc
      else reconcile_synchronize env cluster mc

  unfoldable pub reconcile_live : Cluster → BmcCluster → MachineContext → MachineContext × Outcome
  unfolding ensure_fini create_or_poll
  reconcile_live cluster bmc_cluster mc =
      let mc' = ensure_fini mc in
      if is_infrastructure_ready cluster
      then (if is_data_secret_ready mc'.machine
          then create_or_poll cluster bmc_cluster mc'
          else (mc', returned no_requeue none))
      else (mc', returned no_requeue none)

  module _ (lookups : Lookups) where
    unfoldable pub live_of : Cluster → BmcCluster → MachineContext → MachineContext × Outcome
    live_of cluster bmc_cluster mc =
        if lookups.is_paused cluster bmc_cluster
        then (mc, returned no_requeue none)
        else reconcile_live cluster bmc_cluster mc

    -- Step 5 reads through the pointer `InfrastructureRef`.
    unfoldable pub cluster_of : Cluster → MachineContext → MachineContext × Outcome
    unfolding live_of
    cluster_of cluster mc = elim cluster.infrastructure_ref [
      | none ↦ (mc, panicked)
      | some name ↦ elim (lookups.get_bmc_cluster mc.bmc_machine.meta.namespace name) [
        | err e ↦ (mc, returned no_requeue none)
        | ok bmc_cluster ↦ live_of cluster bmc_cluster mc
      ]
    ]

    -- From the test on the deletion time to the end.
    unfoldable pub reconcile_context : MachineContext → MachineContext × Outcome
    unfolding cluster_of
    reconcile_context mc =
        if is_marked_deleted (some mc.bmc_machine)
        then reconcile_delete env mc
        else elim (lookups.get_cluster_from_metadata mc.machine) [
          | err e ↦ (mc, returned no_requeue (some e))
          | ok cluster ↦ cluster_of cluster mc
        ]

    persist : MachineContext × Outcome → Run
    persist (mc, outcome) = record {
      outcome = outcome;
      patched = some mc.bmc_machine;
      trace = mc.trace;
    }

    abbrev untouched : Option GoError → Run
    untouched e = record { outcome = returned no_requeue e; patched = none; trace = [] }

    unfoldable pub with_owner : BmcMachine → Try (Option Machine) → Run
    unfolding persist
    with_owner m (err e) = untouched (some e)
    with_owner m (ok none) = untouched none
    with_owner m (ok (some machine)) =
        persist (reconcile_context (record { machine = machine; bmc_machine = m; trace = [] }))

    unfoldable pub reconcile : String → String → Run
    unfolding with_owner
    reconcile namespace name = elim (lookups.get_bmc_machine namespace name) [
      | err e ↦ untouched (lookups.ignore_not_found e)
      | ok m ↦ with_owner m (lookups.get_owner_machine m)
    ]
