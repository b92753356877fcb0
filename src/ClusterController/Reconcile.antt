-- ===== src/ClusterController/Reconcile.antt =====
-- `Reconcile` and `reconcileLive` of controllers/bmccluster_controller.go.
use cluster_api_provider_bmc.Base.{
  String, Bool, Option, none, some, List, [], string_eq, if◌then◌else◌,
}
use cluster_api_provider_bmc.Go.{GoError, Try, ok, err, Outcome, returned, no_requeue}
use cluster_api_provider_bmc.Go.Format.{is_empty}
use cluster_api_provider_bmc.Api.Cluster.{BmcCluster}
use cluster_api_provider_bmc.Outside.{Cluster, Effect}
use cluster_api_provider_bmc.ClusterController.State.{
  Environment, ClusterContext, add_fini, has_fini, is_marked_deleted, get_ip,
}
use cluster_api_provider_bmc.ClusterController.Create.{reconcile_create}
use cluster_api_provider_bmc.ClusterController.Synchronize.{reconcile_synchronize}
use cluster_api_provider_bmc.ClusterController.Delete.{reconcile_delete}

-- The lookups in the API server and in the Cluster API's helpers, as they answer during one
-- reconciliation.
pub record Lookups : Type 0 where
  pub get_bmc_cluster : String → String → Try BmcCluster  -- r.Get, by namespace and name
  pub get_owner_cluster : BmcCluster → Try (Option Cluster)  -- util.GetOwnerCluster
  pub is_paused : Cluster → BmcCluster → Bool  -- annotations.IsPaused
  pub ignore_not_found : GoError → Option GoError  -- client.IgnoreNotFound

-- What a run leaves behind. `patched` is the object that the deferred call hands to the patch
-- helper, which runs on every return after it is set up, and on a panic.
pub record Run : Type 0 where
  pub outcome : Outcome
  pub patched : Option BmcCluster
  pub trace : List Effect

module _ (env : Environment) where
  ensure_fini : ClusterContext → ClusterContext
  ensure_fini cc = if has_fini env cc.bmc_cluster then cc else add_fini env cc

  create_or_poll : ClusterContext → ClusterContext × Outcome
  create_or_poll cc =
      if is_empty (get_ip cc.bmc_cluster)
      then reconcile_create env cc
      else reconcile_synchronize env cc

  unfoldable pub reconcile_live : ClusterContext → ClusterContext × Outcome
  unfolding ensure_fini create_or_poll
  reconcile_live cc = create_or_poll (ensure_fini cc)

  unfoldable pub reconcile_context : ClusterContext → ClusterContext × Outcome
  reconcile_context cc =
      if is_marked_deleted (some cc.bmc_cluster) then reconcile_delete env cc else reconcile_live cc

  module _ (lookups : Lookups) where
    persist : ClusterContext × Outcome → Run
    persist (cc, outcome) = record {
      outcome = outcome;
      patched = some cc.bmc_cluster;
      trace = cc.trace;
    }

    abbrev untouched : Option GoError → Run
    untouched e = record { outcome = returned no_requeue e; patched = none; trace = [] }

    unfoldable pub with_owner : BmcCluster → Try (Option Cluster) → Run
    unfolding persist reconcile_context
    with_owner c (err e) = untouched (some e)
    with_owner c (ok none) = untouched none
    with_owner c (ok (some cluster)) =
        if lookups.is_paused cluster c
        then untouched none
        else persist (reconcile_context (record { cluster = cluster; bmc_cluster = c; trace = [] }))

    unfoldable pub reconcile : String → String → Run
    unfolding with_owner
    reconcile namespace name = elim (lookups.get_bmc_cluster namespace name) [
      | err e ↦ untouched (lookups.ignore_not_found e)
      | ok c ↦ with_owner c (lookups.get_owner_cluster c)
    ]
