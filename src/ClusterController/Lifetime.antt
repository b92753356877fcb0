-- ===== src/ClusterController/Lifetime.antt =====
-- A cluster from the run that creates its address block on, through any runs.
use mathlib.Core.Path.{subst}
use cluster_api_provider_bmc.Base.{
  ◌≡◌, ◌≢◌, inl, inr, ◌∙◌, sym, arith, Option, none, some, true, false, List, [], refl, string_eq,
}
use cluster_api_provider_bmc.Go.{Try, ok, err}
use cluster_api_provider_bmc.Go.Ip.{Ip, ip_string}
use cluster_api_provider_bmc.Api.Cluster.{BmcCluster, BmcClusterStatus}
use cluster_api_provider_bmc.Outside.{Cluster}
use cluster_api_provider_bmc.ClusterController.State.{
  Environment, ClusterContext, get_ip, get_ip_allocation_id, is_marked_deleted, add_fini,
}
use cluster_api_provider_bmc.ClusterController.Create.{ip_block_request, endpoint_ip}
use cluster_api_provider_bmc.ClusterController.Reconcile.{
  Lookups, reconcile_live, reconcile_context, with_owner, reconcile,
}
use cluster_api_provider_bmc.ClusterController.Allocation.{Made, create_serves}
use cluster_api_provider_bmc.ClusterController.Readiness.{IsServed, context-IsServed}
use cluster_api_provider_bmc.ClusterController.History.{
  Turn, run_of, History, start, run, skip, OnlyAbout, cluster-History-OnlyAbout,
}

-- The run finds this cluster and its owner, it is not marked as deleted, and nothing is paused.
pub record IsDue (t : Turn) (c : BmcCluster) : Type 0 where
  pub cluster : Cluster
  pub found : t.lookups.get_bmc_cluster t.namespace t.name ≡ ok c
  pub owned : t.lookups.get_owner_cluster c ≡ ok (some cluster)
  pub active : t.lookups.is_paused cluster c ≡ false
  pub wanted : is_marked_deleted (some c) ≡ false

-- What `reconcileLive` is given, and the object that it leaves.
abbrev pub context_for : {t : Turn} {c : BmcCluster} → IsDue t c → ClusterContext
context_for {c = c} due = record { cluster = due.cluster; bmc_cluster = c; trace = [] }

abbrev pub left_by : {c : BmcCluster} (t : Turn) → IsDue t c → BmcCluster
left_by t due = (reconcile_live t.env (context_for due)).0.bmc_cluster

due_run : {c : BmcCluster} (t : Turn) (due : IsDue t c) → (run_of t).patched ≡ some (left_by t due)
unfolding reconcile with_owner reconcile_context
due_run t due = ground (arith, due.found, due.owned, due.active, due.wanted)

-- The finalizer plays no part in the request.
with_fini :
    {env : Environment} {cc : ClusterContext} {ips : BmcClusterStatus}
    → Made env cc ips
    → Made env (add_fini env cc) ips
unfolding add_fini ip_block_request
with_fini made = record {
  body = made.body;
  code = made.code;
  reply = made.reply;
  marshalled = made.marshalled;
  success = made.success;
  answer = made.answer;
  parsed = made.parsed;
}

live_serves :
    (env : Environment) (cc : ClusterContext) {ips : BmcClusterStatus} {addr : Ip}
    → Made env cc ips
    → endpoint_ip env ips.cidr ≡ some addr
    → get_ip cc.bmc_cluster ≡ ""
    → cc.bmc_cluster.meta.annotations ≢ none
    → cc.trace ≡ []
    → let c' = (reconcile_live env cc).0.bmc_cluster in
      (get_ip c' ≡ ip_string env.ipv6_string addr)
      × (get_ip_allocation_id c' ≡ ips.id)
      × (c'.status.ready ≡ true)
unfolding reconcile_live add_fini get_ip
live_serves env cc made is_address unserved annotated fresh = ground (
  arith,
  create_serves env cc made is_address annotated fresh,
  create_serves env (add_fini env cc) (with_fini made) is_address annotated fresh,
)

with_owner-IsServed :
    (env : Environment) (lookups : Lookups) (c c' : BmcCluster) (owner : Try (Option Cluster))
    → IsServed c
    → (with_owner env lookups c owner).patched ≡ some c'
    → IsServed c'
unfolding with_owner
with_owner-IsServed env lookups c c' (err e) served patched = cc
with_owner-IsServed env lookups c c' (ok none) served patched = cc
with_owner-IsServed env lookups c c' (ok (some cluster)) served patched =
    let ctx : ClusterContext = record { cluster = cluster; bmc_cluster = c; trace = [] } in
    ground (arith, context-IsServed env ctx served)

History-IsServed : {c d : BmcCluster} {ts : List Turn} → History c d ts → IsServed c → IsServed d
unfolding reconcile
History-IsServed start served = served
History-IsServed (skip t h bare) served = History-IsServed h served
History-IsServed (run {d = k} {d' = d} t h found patched) served =
    with_owner-IsServed t.env t.lookups k d (t.lookups.get_owner_cluster k)
      (History-IsServed h served) (rw (found, reconcile) at patched)

-- Let a cluster with annotations and no address be due, and BMC answer the request for its block by
-- one whose text is an address that is not printed as the empty text. Then, and after any runs that
-- follow, the cluster is ready, holds the address after the block's first one and the block's id,
-- and every call after the creation reads or deletes this block: there is no second one.
pub create-stays_ready :
    {c d : BmcCluster} (t : Turn) (due : IsDue t c) {ips : BmcClusterStatus} {addr : Ip}
    → Made t.env (context_for due) ips
    → endpoint_ip t.env ips.cidr ≡ some addr
    → ip_string t.env.ipv6_string addr ≢ ""
    → get_ip c ≡ ""
    → c.meta.annotations ≢ none
    → {ts : List Turn} → History (left_by t due) d ts
    → ((run_of t).patched ≡ some (left_by t due))
      × (d.status.ready ≡ true)
      × (get_ip d ≡ ip_string t.env.ipv6_string addr)
      × (get_ip_allocation_id d ≡ ips.id)
      × OnlyAbout ips.id ts
create-stays_ready {d = d} t due {ips} made is_address shown unserved annotated {ts} h =
    let (ip, id, ready) =
      live_serves t.env (context_for due) made is_address unserved annotated refl in
    let served : get_ip (left_by t due) ≢ "" = λ e. shown (sym ip ∙ e) in
    let ((same_ip, same_id), about) = cluster-History-OnlyAbout h served in
    let kept = History-IsServed h (inr ready) in
    (
      due_run t due,
      elim kept [ inl gone ↦ absurd (served (sym same_ip ∙ gone)) | inr still ↦ still ],
      same_ip ∙ ip,
      same_id ∙ id,
      subst (λ i. OnlyAbout i ts) id about,
    )
