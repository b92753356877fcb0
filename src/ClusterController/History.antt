-- ===== src/ClusterController/History.antt =====
-- Runs of `Reconcile` on a BMCCluster one after the other, on the object that the run before handed
-- to the patch helper. Everything outside may answer otherwise in each run, and what the last run
-- finds stands first.
use mathlib.Core.Path.{subst}
use cluster_api_provider_bmc.Base.{
  ◌≡◌, ◌≢◌, ◌⊎◌, ◌∙◌, sym, arith, String, Option, none, some, List, [], ◌∷◌, refl,
}
use cluster_api_provider_bmc.Go.{Try, ok, err}
use cluster_api_provider_bmc.Api.Cluster.{BmcCluster}
use cluster_api_provider_bmc.Outside.{Cluster, HttpRequest, calls}
use cluster_api_provider_bmc.ClusterController.State.{
  Environment, ClusterContext, get_ip, get_ip_allocation_id, add_fini, remove_fini,
}
use cluster_api_provider_bmc.ClusterController.Synchronize.{get_block_call}
use cluster_api_provider_bmc.ClusterController.Delete.{delete_block_call, reconcile_delete}
use cluster_api_provider_bmc.ClusterController.Reconcile.{
  Lookups, Run, reconcile_live, reconcile_context, with_owner, reconcile,
}
use cluster_api_provider_bmc.ClusterController.Refinement.{cluster_synchronize_refines}

-- The call reads or deletes this block.
abbrev IsAbout : Environment → String → HttpRequest → Type 0
IsAbout env id r = (r ≡ get_block_call env id) ⊎ (r ≡ delete_block_call env id)

abbrev pub AllAbout : Environment → String → List HttpRequest → Type 0
AllAbout env id [] = Unit
AllAbout env id (r ∷ rs) = IsAbout env id r × AllAbout env id rs

-- The address and the block id are those of the other object.
abbrev pub IsSamePlace : BmcCluster → BmcCluster → Type 0
IsSamePlace c c' = (get_ip c' ≡ get_ip c) × (get_ip_allocation_id c' ≡ get_ip_allocation_id c)

live-AllAbout :
    (env : Environment) (ctx : ClusterContext)
    → ctx.trace ≡ []
    → get_ip ctx.bmc_cluster ≢ ""
    → let (ctx', _) = reconcile_live env ctx in
      AllAbout env (get_ip_allocation_id ctx.bmc_cluster) (calls ctx'.trace)
      × IsSamePlace ctx.bmc_cluster ctx'.bmc_cluster
unfolding reconcile_live add_fini get_ip get_ip_allocation_id
live-AllAbout env ctx fresh served =
    ground (
      arith,
      cluster_synchronize_refines env ctx,
      cluster_synchronize_refines env (add_fini env ctx),
    )

delete-AllAbout :
    (env : Environment) (ctx : ClusterContext)
    → ctx.trace ≡ []
    → let (ctx', _) = reconcile_delete env ctx in
      AllAbout env (get_ip_allocation_id ctx.bmc_cluster) (calls ctx'.trace)
      × IsSamePlace ctx.bmc_cluster ctx'.bmc_cluster
unfolding reconcile_delete remove_fini get_ip get_ip_allocation_id
delete-AllAbout env ctx fresh = ground arith

context-AllAbout :
    (env : Environment) (ctx : ClusterContext)
    → ctx.trace ≡ []
    → get_ip ctx.bmc_cluster ≢ ""
    → let (ctx', _) = reconcile_context env ctx in
      AllAbout env (get_ip_allocation_id ctx.bmc_cluster) (calls ctx'.trace)
      × IsSamePlace ctx.bmc_cluster ctx'.bmc_cluster
unfolding reconcile_context
context-AllAbout env ctx fresh served =
    ground (arith, live-AllAbout env ctx fresh served, delete-AllAbout env ctx fresh)

-- What one run is given: the environment, the lookups, and the name of the object.
pub record Turn : Type 0 where
  pub env : Environment
  pub lookups : Lookups
  pub namespace : String
  pub name : String

abbrev pub run_of : Turn → Run
run_of t = reconcile t.env t.lookups t.namespace t.name

with_owner-AllAbout :
    (env : Environment) (lookups : Lookups) (c c' : BmcCluster) (owner : Try (Option Cluster))
    → get_ip c ≢ ""
    → (with_owner env lookups c owner).patched ≡ some c'
    → AllAbout env (get_ip_allocation_id c) (calls (with_owner env lookups c owner).trace)
      × IsSamePlace c c'
unfolding with_owner
with_owner-AllAbout env lookups c c' (err e) served patched = cc
with_owner-AllAbout env lookups c c' (ok none) served patched = cc
with_owner-AllAbout env lookups c c' (ok (some cluster)) served patched =
    let ctx : ClusterContext = record { cluster = cluster; bmc_cluster = c; trace = [] } in
    ground (arith, context-AllAbout env ctx refl served)

with_owner-untouched :
    (env : Environment) (lookups : Lookups) (c : BmcCluster) (owner : Try (Option Cluster))
    → (with_owner env lookups c owner).patched ≡ none
    → (with_owner env lookups c owner).trace ≡ []
unfolding with_owner
with_owner-untouched env lookups c (err e) bare = refl
with_owner-untouched env lookups c (ok none) bare = refl
with_owner-untouched env lookups c (ok (some cluster)) bare = ground arith

-- A run that hands no object to the patch helper has called nothing and recorded nothing.
pub cluster_untouched :
    (env : Environment) (lookups : Lookups) (namespace name : String)
    → (reconcile env lookups namespace name).patched ≡ none
    → (reconcile env lookups namespace name).trace ≡ []
unfolding reconcile
cluster_untouched env lookups namespace name bare = ground (arith, with_owner-untouched env lookups)

-- The object may go through these runs, from `c` on. A run that hands no object to the patch helper
-- leaves it as it is.
pub data History (c : BmcCluster) : BmcCluster → List Turn → Type 0 where
  start : History c c []
  run :
      {d d' : BmcCluster} {ts : List Turn} (t : Turn)
      → History c d ts
      → t.lookups.get_bmc_cluster t.namespace t.name ≡ ok d
      → (run_of t).patched ≡ some d'
      → History c d' (t ∷ ts)
  skip :
      {d : BmcCluster} {ts : List Turn} (t : Turn)
      → History c d ts
      → (run_of t).patched ≡ none
      → History c d (t ∷ ts)

-- Every call of these runs reads or deletes this block.
abbrev pub OnlyAbout : String → List Turn → Type 0
OnlyAbout id [] = Unit
OnlyAbout id (t ∷ ts) = AllAbout t.env id (calls (run_of t).trace) × OnlyAbout id ts

-- Once a cluster has an address it keeps the address and the id of its block through any runs, each
-- on the object that the one before left, and none of them makes a call of BMC but to read that
-- block or to delete it: no second block is ever asked for.
pub cluster-History-OnlyAbout :
    {c d : BmcCluster} {ts : List Turn}
    → History c d ts
    → get_ip c ≢ ""
    → IsSamePlace c d × OnlyAbout (get_ip_allocation_id c) ts
unfolding reconcile
cluster-History-OnlyAbout start served = ((refl, refl), tt)
cluster-History-OnlyAbout (skip t h bare) served =
    let (same, before) = cluster-History-OnlyAbout h served in
    (same, (rw (cluster_untouched t.env t.lookups t.namespace t.name bare) tt, before))
cluster-History-OnlyAbout {c} (run {d = k} {d' = d} t h found patched) served =
    let (same, before) = cluster-History-OnlyAbout h served in
    let owner = t.lookups.get_owner_cluster k in
    let (about, kept) =
      with_owner-AllAbout t.env t.lookups k d owner (λ e. served (sym same.0 ∙ e))
        (rw (found, reconcile) at patched) in
    let about_it =
      subst (λ id. AllAbout t.env id (calls (with_owner t.env t.lookups k owner).trace)) same.1
        about in
    ((kept.0 ∙ same.0, kept.1 ∙ same.1), (rw (found, reconcile) about_it, before))
