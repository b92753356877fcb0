-- ===== src/MachineController/OneCall.antt =====
-- How often one run of `Reconcile` calls the BMC API.
use cluster_api_provider_bmc.Base.{
  String, ◌≡◌, arith, refl, Bool, true, false, Option, none, some, List, [], ◌∷◌,
}
use cluster_api_provider_bmc.Go.{Try, ok, err}
use cluster_api_provider_bmc.Api.Cluster.{BmcCluster}
use cluster_api_provider_bmc.Api.Machine.{BmcMachine}
use cluster_api_provider_bmc.Outside.{Machine, Cluster, HttpRequest, calls}
use cluster_api_provider_bmc.MachineController.Environment.{Environment}
use cluster_api_provider_bmc.MachineController.State.{MachineContext, get_machine_id, add_fini}
use cluster_api_provider_bmc.MachineController.Create.{reconcile_create}
use cluster_api_provider_bmc.MachineController.Delete.{reconcile_delete}
use cluster_api_provider_bmc.MachineController.Reconcile.{
  Lookups, reconcile_live, reconcile_context, with_owner, reconcile,
}
use cluster_api_provider_bmc.MachineController.Calls.{synchronize-calls}

abbrev pub is_one_at_most : List HttpRequest → Bool
is_one_at_most [] = true
is_one_at_most (r ∷ []) = true
is_one_at_most (r ∷ (s ∷ rs)) = false

create_one_call :
    (env : Environment) (c : BmcCluster) (mc : MachineContext)
    → mc.trace ≡ []
    → is_one_at_most (calls (reconcile_create env c mc).0.trace) ≡ true
unfolding reconcile_create
create_one_call env c mc fresh = ground arith

delete_one_call :
    (env : Environment) (mc : MachineContext)
    → mc.trace ≡ []
    → is_one_at_most (calls (reconcile_delete env mc).0.trace) ≡ true
unfolding reconcile_delete get_machine_id
delete_one_call env mc fresh = ground arith

live_one_call :
    (env : Environment) (cluster : Cluster) (c : BmcCluster) (mc : MachineContext)
    → mc.trace ≡ []
    → is_one_at_most (calls (reconcile_live env cluster c mc).0.trace) ≡ true
unfolding reconcile_live add_fini get_machine_id
live_one_call env cluster c mc fresh = ground (
  arith,
  create_one_call env c mc fresh,
  create_one_call env c (add_fini env mc) fresh,
  synchronize-calls env cluster mc fresh,
  synchronize-calls env cluster (add_fini env mc) fresh,
)

context_one_call :
    (env : Environment) (lookups : Lookups) (mc : MachineContext)
    → mc.trace ≡ []
    → is_one_at_most (calls (reconcile_context env lookups mc).0.trace) ≡ true
unfolding reconcile_context
context_one_call env lookups mc fresh = grind (arith, live_one_call, delete_one_call)

with_owner_one_call :
    (env : Environment) (lookups : Lookups) (m : BmcMachine) (owner : Try (Option Machine))
    → is_one_at_most (calls (with_owner env lookups m owner).trace) ≡ true
unfolding with_owner
with_owner_one_call env lookups m (err e) = refl
with_owner_one_call env lookups m (ok none) = refl
with_owner_one_call env lookups m (ok (some machine)) =
    context_one_call env lookups (record { machine = machine; bmc_machine = m; trace = [] }) refl

-- One run of `Reconcile` on a BMCMachine calls the BMC API once at most, whatever it finds and
-- whatever the answers.
pub reconcile_one_call :
    (env : Environment) (lookups : Lookups) (namespace name : String)
    → is_one_at_most (calls (reconcile env lookups namespace name).trace) ≡ true
unfolding reconcile
reconcile_one_call env lookups namespace name = grind (arith, with_owner_one_call)
