-- ===== src/MachineController/Persistence.antt =====
-- `Reconcile` of controllers/bmcmachine_controller.go as a whole: what is persisted, what a pause
-- stops, and what it does not.
use cluster_api_provider_bmc.Base.{◌≡◌, arith, refl, ℕ, String, true, false, Option, none, some, []}
use cluster_api_provider_bmc.Go.{Try, ok, err, returned, no_requeue}
use cluster_api_provider_bmc.Api.Cluster.{BmcCluster}
use cluster_api_provider_bmc.Api.Machine.{BmcMachine}
use cluster_api_provider_bmc.Outside.{Machine, Cluster}
use cluster_api_provider_bmc.MachineController.Environment.{Environment}
use cluster_api_provider_bmc.MachineController.State.{MachineContext, is_marked_deleted}
use cluster_api_provider_bmc.MachineController.Delete.{reconcile_delete}
use cluster_api_provider_bmc.MachineController.Reconcile.{
  Lookups, with_owner, reconcile_context, reconcile,
}

-- The test for deletion is a test for a deletion time: the second disjunct of the source adds
-- nothing.
pub marked_deleted_iff :
    (m : BmcMachine)
    → (is_marked_deleted (some m) ≡ false → m.meta.deletion_timestamp ≡ none)
      × (m.meta.deletion_timestamp ≡ none → is_marked_deleted (some m) ≡ false)
unfolding is_marked_deleted
marked_deleted_iff m = ground arith

with_owner_untouched :
    (env : Environment) (lookups : Lookups) (m : BmcMachine) (owner : Try (Option Machine))
    → (with_owner env lookups m owner).patched ≡ none
    → (with_owner env lookups m owner).trace ≡ []
unfolding with_owner
with_owner_untouched env lookups m (err e) bare = refl
with_owner_untouched env lookups m (ok none) bare = refl
with_owner_untouched env lookups m (ok (some machine)) bare = cc

module _ (env : Environment) (lookups : Lookups) (namespace name : String) where
  -- A run that hands no object to the patch helper has called nothing and recorded nothing.
  pub reconcile_untouched :
      (reconcile env lookups namespace name).patched ≡ none
      → (reconcile env lookups namespace name).trace ≡ []
  unfolding reconcile
  reconcile_untouched bare = ground (arith, with_owner_untouched env lookups)

  module _ {m : BmcMachine} {machine : Machine}
      (found : lookups.get_bmc_machine namespace name ≡ ok m)
      (owned : lookups.get_owner_machine m ≡ ok (some machine)) where
    abbrev context : MachineContext
    context = record { machine = machine; bmc_machine = m; trace = [] }

    -- A machine that is marked deleted is torn down in every case: the Cluster and the BMCCluster
    -- are not looked up, and a pause does not hold it up.
    pub reconcile_deleted :
        {t : ℕ}
        → m.meta.deletion_timestamp ≡ some t
        → reconcile env lookups namespace name ≡ record {
          outcome = (reconcile_delete env context).1;
          patched = some (reconcile_delete env context).0.bmc_machine;
          trace = (reconcile_delete env context).0.trace;
        }
    unfolding reconcile with_owner is_marked_deleted reconcile_context
    reconcile_deleted marked = ground arith

    -- While the cluster is paused, a machine that is not marked deleted is left as it is: no call,
    -- no event, no change, no requeue.
    pub reconcile_paused :
        {cluster : Cluster} {c : BmcCluster} {infra : String}
        → m.meta.deletion_timestamp ≡ none
        → lookups.get_cluster_from_metadata machine ≡ ok cluster
        → cluster.infrastructure_ref ≡ some infra
        → lookups.get_bmc_cluster m.meta.namespace infra ≡ ok c
        → lookups.is_paused cluster c ≡ true
        → reconcile env lookups namespace name
          ≡ record { outcome = returned no_requeue none; patched = some m; trace = [] }
    unfolding reconcile with_owner is_marked_deleted reconcile_context
    reconcile_paused live cluster_found ref bmc_found paused = ground arith
