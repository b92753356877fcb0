-- ===== src/MachineController/History.antt =====
-- Runs of `Reconcile` one after the other, on the object that the run before handed to the patch
-- helper. Everything outside may answer otherwise in each run, and what the last run finds stands
-- first.
use mathlib.Core.Option.{some-injective}
use mathlib.Core.Path.{subst}
use cluster_api_provider_bmc.Base.{
  ◌≡◌, ◌≢◌, ◌⊎◌, ◌∙◌, ap, sym, arith, String, Option, none, some, List, [], ◌∷◌, refl,
}
use cluster_api_provider_bmc.Go.{Try, ok, err}
use cluster_api_provider_bmc.Api.Cluster.{BmcCluster}
use cluster_api_provider_bmc.Api.Machine.{BmcMachine}
use cluster_api_provider_bmc.Outside.{Machine, Cluster, HttpRequest, calls}
use cluster_api_provider_bmc.MachineController.Environment.{Environment}
use cluster_api_provider_bmc.MachineController.State.{MachineContext, get_machine_id, add_fini}
use cluster_api_provider_bmc.MachineController.Synchronize.{get_server_call}
use cluster_api_provider_bmc.MachineController.Delete.{deprovision_call, reconcile_delete}
use cluster_api_provider_bmc.MachineController.Reconcile.{
  Lookups, Run, reconcile_live, reconcile_context, with_owner, reconcile,
}
use cluster_api_provider_bmc.MachineController.Frame.{synchronize_frame}
use cluster_api_provider_bmc.MachineController.Calls.{synchronize-calls}
use cluster_api_provider_bmc.MachineController.Persistence.{reconcile_untouched}
use cluster_api_provider_bmc.MachineController.Linked.{IsLinked, reconcile-IsLinked}

-- The call reads or deprovisions this server.
abbrev pub IsAbout : Environment → String → HttpRequest → Type 0
IsAbout env id r = (r ≡ get_server_call env id) ⊎ (r ≡ deprovision_call env id)

abbrev pub AllAbout : Environment → String → List HttpRequest → Type 0
AllAbout env id [] = Unit
AllAbout env id (r ∷ rs) = IsAbout env id r × AllAbout env id rs

live-AllAbout :
    (env : Environment) (cluster : Cluster) (c : BmcCluster) (mc : MachineContext)
    → mc.trace ≡ []
    → get_machine_id mc.bmc_machine ≢ ""
    → let (mc', _) = reconcile_live env cluster c mc in
      AllAbout env (get_machine_id mc.bmc_machine) (calls mc'.trace)
      × (get_machine_id mc'.bmc_machine ≡ get_machine_id mc.bmc_machine)
unfolding reconcile_live add_fini get_machine_id
live-AllAbout env cluster c mc fresh created = ground (
  arith,
  synchronize-calls env cluster mc,
  synchronize-calls env cluster (add_fini env mc),
  synchronize_frame env cluster mc,
  synchronize_frame env cluster (add_fini env mc),
)

pub delete-AllAbout :
    (env : Environment) (mc : MachineContext)
    → mc.trace ≡ []
    → let (mc', _) = reconcile_delete env mc in
      AllAbout env (get_machine_id mc.bmc_machine) (calls mc'.trace)
      × (get_machine_id mc'.bmc_machine ≡ get_machine_id mc.bmc_machine)
unfolding reconcile_delete get_machine_id
delete-AllAbout env mc fresh = ground arith

context-AllAbout :
    (env : Environment) (lookups : Lookups) (mc : MachineContext)
    → mc.trace ≡ []
    → get_machine_id mc.bmc_machine ≢ ""
    → let (mc', _) = reconcile_context env lookups mc in
      AllAbout env (get_machine_id mc.bmc_machine) (calls mc'.trace)
      × (get_machine_id mc'.bmc_machine ≡ get_machine_id mc.bmc_machine)
unfolding reconcile_context
context-AllAbout env lookups mc fresh created = grind (arith, live-AllAbout, delete-AllAbout)

with_owner-AllAbout :
    (env : Environment) (lookups : Lookups) (m m' : BmcMachine) (owner : Try (Option Machine))
    → get_machine_id m ≢ ""
    → (with_owner env lookups m owner).patched ≡ some m'
    → AllAbout env (get_machine_id m) (calls (with_owner env lookups m owner).trace)
      × (get_machine_id m' ≡ get_machine_id m)
unfolding with_owner
with_owner-AllAbout env lookups m m' (err e) created patched = cc
with_owner-AllAbout env lookups m m' (ok none) created patched = cc
with_owner-AllAbout env lookups m m' (ok (some machine)) created patched =
    let mc : MachineContext = record { machine = machine; bmc_machine = m; trace = [] } in
    let (about, same) = context-AllAbout env lookups mc refl created in
    (about, ap get_machine_id (sym (some-injective _ _ patched)) ∙ same)

-- What one run is given: the environment, the lookups, and the name of the object.
pub record Turn : Type 0 where
  pub env : Environment
  pub lookups : Lookups
  pub namespace : String
  pub name : String

abbrev pub run_of : Turn → Run
run_of t = reconcile t.env t.lookups t.namespace t.name

-- The object may go through these runs, from `m` on. A run that hands no object to the patch helper
-- leaves it as it is.
pub data History (m : BmcMachine) : BmcMachine → List Turn → Type 0 where
  start : History m m []
  run :
      {n n' : BmcMachine} {ts : List Turn} (t : Turn)
      → History m n ts
      → t.lookups.get_bmc_machine t.namespace t.name ≡ ok n
      → (run_of t).patched ≡ some n'
      → History m n' (t ∷ ts)
  skip :
      {n : BmcMachine} {ts : List Turn} (t : Turn)
      → History m n ts
      → (run_of t).patched ≡ none
      → History m n (t ∷ ts)

-- Every call of these runs reads or deprovisions this server.
abbrev pub OnlyAbout : String → List Turn → Type 0
OnlyAbout id [] = Unit
OnlyAbout id (t ∷ ts) = AllAbout t.env id (calls (run_of t).trace) × OnlyAbout id ts

-- Through any runs a linked machine stays linked.
pub History-IsLinked :
    {m n : BmcMachine} {ts : List Turn} → History m n ts → IsLinked m → IsLinked n
History-IsLinked start linked = linked
History-IsLinked (run t h found patched) linked =
    reconcile-IsLinked t.env t.lookups t.namespace t.name found (History-IsLinked h linked) patched
History-IsLinked (skip t h bare) linked = History-IsLinked h linked

-- Once a machine has a server id it keeps it through any runs, each on the object that the one before
-- left, and none of them makes a call of BMC but to read that server or to deprovision it: no second
-- server is ever created.
pub History-OnlyAbout :
    {m n : BmcMachine} {ts : List Turn}
    → History m n ts
    → get_machine_id m ≢ ""
    → (get_machine_id n ≡ get_machine_id m) × OnlyAbout (get_machine_id m) ts
unfolding reconcile
History-OnlyAbout start created = (refl, tt)
History-OnlyAbout {m} (run {n = k} {n' = n} t h found patched) created =
    let (same, before) = History-OnlyAbout h created in
    let owner = t.lookups.get_owner_machine k in
    let (about, kept) =
      with_owner-AllAbout t.env t.lookups k n owner (λ e. created (sym same ∙ e))
        (rw (found, reconcile) at patched) in
    (
      kept ∙ same,
      (
        rw (found, reconcile)
            (subst (λ id. AllAbout t.env id (calls (with_owner t.env t.lookups k owner).trace)) same
              about),
        before,
      ),
    )
History-OnlyAbout (skip t h bare) created =
    let (same, before) = History-OnlyAbout h created in
    (same, (rw (reconcile_untouched t.env t.lookups t.namespace t.name bare) tt, before))
