-- ===== src/MachineController/Linked.antt =====
-- The link between a BMCMachine and its server: the server id stands in an annotation, and the
-- provider id of the specification is made of it.
use mathlib.Core.Path.{subst}
use mathlib.Core.Option.{some-injective}
use cluster_api_provider_bmc.Base.{◌≡◌, ◌≢◌, ◌⊎◌, inl, inr, arith, String, Option, none, some, []}
use cluster_api_provider_bmc.Go.{Try, ok, err, panicked}
use cluster_api_provider_bmc.Go.Maps.{write, read-insert, read-nil}
use cluster_api_provider_bmc.Api.Cluster.{BmcCluster}
use cluster_api_provider_bmc.Api.Machine.{BmcMachine}
use cluster_api_provider_bmc.Outside.{Machine, Cluster}
use cluster_api_provider_bmc.MachineController.Environment.{Environment}
use cluster_api_provider_bmc.MachineController.State.{
  MachineContext, get_machine_id, provider_id_of, add_fini, get_data_secret_value,
}
use cluster_api_provider_bmc.MachineController.Create.{reconcile_create}
use cluster_api_provider_bmc.MachineController.Synchronize.{reconcile_synchronize}
use cluster_api_provider_bmc.MachineController.Delete.{reconcile_delete}
use cluster_api_provider_bmc.MachineController.Reconcile.{
  Lookups, reconcile_live, reconcile_context, with_owner, reconcile,
}
use cluster_api_provider_bmc.MachineController.Frame.{synchronize_frame, delete_frame}
use cluster_api_provider_bmc.MachineController.Refinement.{synchronize-wait_after}

-- A machine has no server id yet, or the provider id that belongs to it.
abbrev pub IsLinked : BmcMachine → Type 0
IsLinked m =
    (get_machine_id m ≡ "") ⊎ (m.spec.provider_id ≡ some (provider_id_of (get_machine_id m)))

create-IsLinked :
    (env : Environment) (bmc_cluster : BmcCluster) (mc : MachineContext)
    → IsLinked mc.bmc_machine
    → IsLinked (reconcile_create env bmc_cluster mc).0.bmc_machine
unfolding reconcile_create get_machine_id write
create-IsLinked env bmc_cluster mc linked = grind (arith, read-insert, read-nil)

synchronize-IsLinked :
    (env : Environment) (cluster : Cluster) (mc : MachineContext)
    → IsLinked mc.bmc_machine
    → IsLinked (reconcile_synchronize env cluster mc).0.bmc_machine
unfolding get_machine_id
synchronize-IsLinked env cluster mc linked = ground (arith, synchronize_frame env cluster mc)

delete-IsLinked :
    (env : Environment) (mc : MachineContext)
    → IsLinked mc.bmc_machine
    → IsLinked (reconcile_delete env mc).0.bmc_machine
unfolding get_machine_id
delete-IsLinked env mc linked = ground (arith, delete_frame env mc)

live-IsLinked :
    (env : Environment) (cluster : Cluster) (bmc_cluster : BmcCluster) (mc : MachineContext)
    → IsLinked mc.bmc_machine
    → IsLinked (reconcile_live env cluster bmc_cluster mc).0.bmc_machine
unfolding reconcile_live add_fini get_machine_id
live-IsLinked env cluster bmc_cluster mc linked = ground (
  arith,
  create-IsLinked env bmc_cluster mc,
  create-IsLinked env bmc_cluster (add_fini env mc),
  synchronize-IsLinked env cluster mc,
  synchronize-IsLinked env cluster (add_fini env mc),
)

reconcile_context-IsLinked :
    (env : Environment) (lookups : Lookups) (mc : MachineContext)
    → IsLinked mc.bmc_machine
    → IsLinked (reconcile_context env lookups mc).0.bmc_machine
unfolding reconcile_context
reconcile_context-IsLinked env lookups mc linked = grind (arith, live-IsLinked, delete-IsLinked)

with_owner-IsLinked :
    (env : Environment) (lookups : Lookups) (m m' : BmcMachine) (owner : Try (Option Machine))
    → IsLinked m
    → (with_owner env lookups m owner).patched ≡ some m'
    → IsLinked m'
unfolding with_owner
with_owner-IsLinked env lookups m m' (err e) linked patched = cc
with_owner-IsLinked env lookups m m' (ok none) linked patched = cc
with_owner-IsLinked env lookups m m' (ok (some machine)) linked patched =
    subst IsLinked (some-injective _ _ patched) (
      reconcile_context-IsLinked env lookups
        (record { machine = machine; bmc_machine = m; trace = [] }) linked)

-- Whatever BMC, the API server and the workload cluster answer, a run on a linked machine hands a
-- linked machine to the patch helper, also if it panics.
pub reconcile-IsLinked :
    (env : Environment) (lookups : Lookups) (namespace name : String) {m m' : BmcMachine}
    → lookups.get_bmc_machine namespace name ≡ ok m
    → IsLinked m
    → (reconcile env lookups namespace name).patched ≡ some m'
    → IsLinked m'
unfolding reconcile
reconcile-IsLinked env lookups namespace name {m} {m'} found linked patched =
    with_owner-IsLinked env lookups m m' (lookups.get_owner_machine m) linked
      (rw (found, reconcile) at patched)

create-ne-panicked :
    (env : Environment) (bmc_cluster : BmcCluster) (mc : MachineContext)
    → mc.bmc_machine.meta.annotations ≢ none
    → mc.machine.data_secret_name ≢ none
    → (reconcile_create env bmc_cluster mc).1 ≢ panicked
unfolding reconcile_create write get_data_secret_value
create-ne-panicked env bmc_cluster mc made named = ground arith

synchronize-ne-panicked :
    (env : Environment) (cluster : Cluster) (mc : MachineContext)
    → IsLinked mc.bmc_machine
    → get_machine_id mc.bmc_machine ≢ ""
    → (reconcile_synchronize env cluster mc).1 ≢ panicked
synchronize-ne-panicked env cluster mc (inl none_yet) created = absurd (created none_yet)
synchronize-ne-panicked env cluster mc (inr linked) created =
    rw (synchronize-wait_after env cluster mc linked) (λ e. cc)

-- `reconcileLive` on a linked machine with annotations does not panic, whatever the answers.
pub live-ne-panicked :
    (env : Environment) (cluster : Cluster) (bmc_cluster : BmcCluster) (mc : MachineContext)
    → IsLinked mc.bmc_machine
    → mc.bmc_machine.meta.annotations ≢ none
    → (reconcile_live env cluster bmc_cluster mc).1 ≢ panicked
unfolding reconcile_live add_fini get_machine_id
live-ne-panicked env cluster bmc_cluster mc linked made = ground (
  arith,
  create-ne-panicked env bmc_cluster mc,
  create-ne-panicked env bmc_cluster (add_fini env mc),
  synchronize-ne-panicked env cluster mc,
  synchronize-ne-panicked env cluster (add_fini env mc),
)
