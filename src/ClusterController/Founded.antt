-- ===== src/ClusterController/Founded.antt =====
-- A BMCCluster is ready only once it has an address, and its VIP manager stays what it is.
use Prim.Native.Char.{Char}
use cluster_api_provider_bmc.Base.{
  ◌≡◌, ◌≢◌, ◌⊎◌, inl, inr, arith, ℕ, zero, suc, ◌/◌, ◌%◌, String, false, [], Option, none, some,
  Bool-cases, ◌==◌, nat_eq,
}
use cluster_api_provider_bmc.Go.{Try, ok, err}
use cluster_api_provider_bmc.Go.Format.{put, put_digits, digit}
use cluster_api_provider_bmc.Go.Ip.{Ip, ip_string, dotted, same_bytes, v4_prefix}
use cluster_api_provider_bmc.Go.Maps.{write, read-insert, read-nil}
use cluster_api_provider_bmc.Constants.Annotation
use cluster_api_provider_bmc.Api.Cluster.{BmcCluster}
use cluster_api_provider_bmc.Outside.{Cluster}
use cluster_api_provider_bmc.ClusterController.State.{
  Environment, ClusterContext, get_ip, add_fini, remove_fini,
}
use cluster_api_provider_bmc.ClusterController.Create.{reconcile_create}
use cluster_api_provider_bmc.ClusterController.Synchronize.{reconcile_synchronize}
use cluster_api_provider_bmc.ClusterController.Delete.{reconcile_delete}
use cluster_api_provider_bmc.ClusterController.Reconcile.{
  Lookups, reconcile_live, reconcile_context, with_owner, reconcile,
}

-- A cluster is not ready, or has an address.
abbrev pub IsFounded : BmcCluster → Type 0
IsFounded c = (c.status.ready ≡ false) ⊎ (get_ip c ≢ "")

-- A text with a character.
abbrev IsFull : String → Type 0
IsFull String.[] = ⊥
IsFull (String.◌∷◌ c s) = Unit

put_digits-IsFull :
    (fuel n : ℕ) (c : Char) (rest : String) → IsFull (put_digits fuel n (String.◌∷◌ c rest))
unfolding put_digits
put_digits-IsFull zero n c rest = tt
put_digits-IsFull (suc fuel) n c rest = elim (Bool-cases (n / 10 == 0)) [
  | inl last ↦ rw (last, put_digits) tt
  | inr more ↦
      rw (more, put_digits) (put_digits-IsFull fuel (n / 10) (digit (n % 10)) (String.◌∷◌ c rest))
]

put-IsFull : (n : ℕ) (rest : String) → IsFull (put n rest)
unfolding put put_digits
put-IsFull n rest = elim (Bool-cases (n / 10 == 0)) [
  | inl last ↦ rw (last, put_digits) tt
  | inr more ↦ rw (more, put_digits) (put_digits-IsFull n (n / 10) (digit (n % 10)) rest)
]

IsFull-ne : (s : String) → IsFull s → s ≢ ""
IsFull-ne String.[] full e = full
IsFull-ne (String.◌∷◌ c s) full e = cc

ip_string-ne-empty :
    (ipv6_string : Ip → String) (ip : Ip) → ipv6_string ip ≢ "" → ip_string ipv6_string ip ≢ ""
unfolding ip_string dotted
ip_string-ne-empty ipv6_string ip printed = elim (Bool-cases (same_bytes ip.prefix v4_prefix)) [
  | inl short ↦ rw (short, ip_string) (IsFull-ne _ (put-IsFull ip.b12 _))
  | inr long ↦ rw (long, ip_string) printed
]

-- The library prints every address as some text.
abbrev pub Prints : Environment → Type 0
Prints env = (ip : Ip) → env.ipv6_string ip ≢ ""

-- The cluster is ready only with an address, and its VIP manager is that of the other object.
abbrev pub IsGrown : BmcCluster → BmcCluster → Type 0
IsGrown c c' = IsFounded c' × (c'.spec.vip_manager ≡ c.spec.vip_manager)

create-IsGrown :
    (env : Environment) (cc : ClusterContext)
    → Prints env
    → get_ip cc.bmc_cluster ≡ ""
    → IsFounded cc.bmc_cluster
    → IsGrown cc.bmc_cluster (reconcile_create env cc).0.bmc_cluster
unfolding reconcile_create get_ip write
create-IsGrown env cc prints none_yet founded =
    grind (arith, read-insert, read-nil, Annotation.allocation-ne-ip, ip_string-ne-empty)

synchronize-IsGrown :
    (env : Environment) (cc : ClusterContext)
    → get_ip cc.bmc_cluster ≢ ""
    → IsGrown cc.bmc_cluster (reconcile_synchronize env cc).0.bmc_cluster
unfolding reconcile_synchronize get_ip
synchronize-IsGrown env cc served = ground arith

live-IsGrown :
    (env : Environment) (cc : ClusterContext)
    → Prints env
    → IsFounded cc.bmc_cluster
    → IsGrown cc.bmc_cluster (reconcile_live env cc).0.bmc_cluster
unfolding reconcile_live add_fini get_ip
live-IsGrown env cc prints founded = ground (
  arith,
  create-IsGrown env cc prints,
  create-IsGrown env (add_fini env cc) prints,
  synchronize-IsGrown env cc,
  synchronize-IsGrown env (add_fini env cc),
)

delete-IsGrown :
    (env : Environment) (cc : ClusterContext)
    → IsFounded cc.bmc_cluster
    → IsGrown cc.bmc_cluster (reconcile_delete env cc).0.bmc_cluster
unfolding reconcile_delete remove_fini get_ip
delete-IsGrown env cc founded = ground arith

context-IsGrown :
    (env : Environment) (cc : ClusterContext)
    → Prints env
    → IsFounded cc.bmc_cluster
    → IsGrown cc.bmc_cluster (reconcile_context env cc).0.bmc_cluster
unfolding reconcile_context
context-IsGrown env cc prints founded =
    ground (arith, live-IsGrown env cc prints founded, delete-IsGrown env cc founded)

with_owner-IsGrown :
    (env : Environment) (lookups : Lookups) (c c' : BmcCluster) (owner : Try (Option Cluster))
    → Prints env
    → IsFounded c
    → (with_owner env lookups c owner).patched ≡ some c'
    → IsGrown c c'
unfolding with_owner
with_owner-IsGrown env lookups c c' (err e) prints founded patched = cc
with_owner-IsGrown env lookups c c' (ok none) prints founded patched = cc
with_owner-IsGrown env lookups c c' (ok (some cluster)) prints founded patched =
    let ctx : ClusterContext = record { cluster = cluster; bmc_cluster = c; trace = [] } in
    ground (arith, context-IsGrown env ctx prints founded)

-- If the library prints every address as some text, a reconciliation keeps the invariant that a
-- cluster is ready only with an address, and the VIP manager.
pub reconcile-IsGrown :
    (env : Environment) (lookups : Lookups) (namespace name : String) {c c' : BmcCluster}
    → lookups.get_bmc_cluster namespace name ≡ ok c
    → Prints env
    → IsFounded c
    → (reconcile env lookups namespace name).patched ≡ some c'
    → IsGrown c c'
unfolding reconcile
reconcile-IsGrown env lookups namespace name {c} {c'} found prints founded patched =
    with_owner-IsGrown env lookups c c' (lookups.get_owner_cluster c) prints founded
      (rw (found, reconcile) at patched)
