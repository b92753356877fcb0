-- ===== src/System/Placement.antt =====
-- Runs of both controllers in any order: the servers of a control plane go into one block.
use mathlib.Core.Path.{subst}
use cluster_api_provider_bmc.Base.{
  ◌≡◌, ◌≢◌, ◌⊎◌, inl, inr, ◌∙◌, sym, refl, String, true, some, List, [], ◌∷◌,
}
use cluster_api_provider_bmc.Go.{ok}
use cluster_api_provider_bmc.Api.Cluster.{BmcCluster, vip_none}
use cluster_api_provider_bmc.Outside.{calls}
use cluster_api_provider_bmc.MachineController.State.{get_cluster_ip_allocation_id}
use cluster_api_provider_bmc.MachineController.History.{Turn, run_of, AllAbout}
use cluster_api_provider_bmc.ClusterController.State.{get_ip, get_ip_allocation_id}
use cluster_api_provider_bmc.ClusterController.Founded.{IsFounded, Prints, reconcile-IsGrown}
use cluster_api_provider_bmc.ClusterController.History as ClusterHistory
use cluster_api_provider_bmc.System.Servers.{OneCreation}
use cluster_api_provider_bmc.System.Turns.{Sees, IsOrderly, reconcile-IsOrderly}

-- The BMCCluster after reconciliations of it and of control plane machines, and those of machines,
-- the last first. What is outside may answer otherwise in each. A run that hands no object to the
-- patch helper leaves the BMCCluster as it is, and is left out.
pub data Joint (c : BmcCluster) : BmcCluster → List Turn → Type 0 where
  start : Joint c c []
  cluster_run :
      {d d' : BmcCluster} {ts : List Turn} (t : ClusterHistory.Turn)
      → Joint c d ts
      → Prints t.env
      → t.lookups.get_bmc_cluster t.namespace t.name ≡ ok d
      → (ClusterHistory.run_of t).patched ≡ some d'
      → Joint c d' ts
  machine_run :
      {d : BmcCluster} {ts : List Turn} (t : Turn)
      → Joint c d ts
      → Sees t.env t.lookups d
      → Joint c d (t ∷ ts)

-- Every run reads or deprovisions one server, or asks for one server at most, in this block.
abbrev pub AllPlaced : String → List Turn → Type 0
AllPlaced block [] = Unit
AllPlaced block (t ∷ ts) =
    (((id : String) × AllAbout t.env id (calls (run_of t).trace))
      ⊎ OneCreation t.env block (calls (run_of t).trace))
    × AllPlaced block ts

-- The same, and a server is asked for only once the cluster has an address.
abbrev AllSettled : BmcCluster → List Turn → Type 0
AllSettled c [] = Unit
AllSettled c (t ∷ ts) =
    (((id : String) × AllAbout t.env id (calls (run_of t).trace))
      ⊎ ((get_ip c ≢ "") × OneCreation t.env (get_ip_allocation_id c) (calls (run_of t).trace)))
    × AllSettled c ts

AllSettled-kept :
    (c c' : BmcCluster) (ts : List Turn)
    → (get_ip c ≢ "" → ClusterHistory.IsSamePlace c c')
    → AllSettled c ts
    → AllSettled c' ts
AllSettled-kept c c' [] same all = tt
AllSettled-kept c c' (t ∷ ts) same (inl about, rest) =
    (inl about, AllSettled-kept c c' ts same rest)
AllSettled-kept c c' (t ∷ ts) same (inr (served, one), rest) =
    let (ip, id) = same served in
    (
      inr (
        λ e. served (sym ip ∙ e),
        subst (λ b. OneCreation t.env b (calls (run_of t).trace)) (sym id) one,
      ),
      AllSettled-kept c c' ts same rest,
    )

AllPlaced-of_AllSettled :
    (c : BmcCluster) (ts : List Turn) → AllSettled c ts → AllPlaced (get_ip_allocation_id c) ts
AllPlaced-of_AllSettled c [] all = tt
AllPlaced-of_AllSettled c (t ∷ ts) (inl about, rest) =
    (inl about, AllPlaced-of_AllSettled c ts rest)
AllPlaced-of_AllSettled c (t ∷ ts) (inr (served, one), rest) =
    (inr one, AllPlaced-of_AllSettled c ts rest)

founded-ready : (c : BmcCluster) → IsFounded c → c.status.ready ≡ true → get_ip c ≢ ""
founded-ready c (inl unready) ready = absurd (cc)
founded-ready c (inr served) ready = served

same_block : (c : BmcCluster) → get_cluster_ip_allocation_id c ≡ get_ip_allocation_id c
unfolding get_cluster_ip_allocation_id get_ip_allocation_id
same_block c = refl

settle :
    (t : Turn) (c : BmcCluster)
    → IsFounded c
    → IsOrderly t.env c (calls (run_of t).trace)
    → ((id : String) × AllAbout t.env id (calls (run_of t).trace))
      ⊎ ((get_ip c ≢ "") × OneCreation t.env (get_ip_allocation_id c) (calls (run_of t).trace))
settle t c founded (inl about) = inl about
settle t c founded (inr (ready, one)) = inr (
  founded-ready c founded ready,
  subst (λ b. OneCreation t.env b (calls (run_of t).trace)) (same_block c) one,
)

Joint-AllSettled :
    {c d : BmcCluster} {ts : List Turn}
    → Joint c d ts
    → IsFounded c
    → c.spec.vip_manager ≡ vip_none
    → IsFounded d × (d.spec.vip_manager ≡ vip_none) × AllSettled d ts
Joint-AllSettled start founded bare = (founded, bare, tt)
Joint-AllSettled (cluster_run {d = k} {d' = d} {ts = ts} t j prints found patched) founded bare =
    let (founded', bare', all) = Joint-AllSettled j founded bare in
    let (grown, vip) =
      reconcile-IsGrown t.env t.lookups t.namespace t.name found prints founded' patched in
    let one_run = ClusterHistory.run t ClusterHistory.start found patched in
    (
      grown,
      vip ∙ bare',
      AllSettled-kept k d ts (λ served. (ClusterHistory.cluster-History-OnlyAbout one_run served).0)
          all,
    )
Joint-AllSettled (machine_run {d = d} t j sees) founded bare =
    let (founded', bare', all) = Joint-AllSettled j founded bare in
    let orderly = reconcile-IsOrderly t.env t.lookups d bare' sees t.namespace t.name in
    (founded', bare', (settle t d founded' orderly, all))

-- If a cluster has no VIP manager, and an address if it is ready, the library prints every address
-- as some text, and the Cluster is reported as ready only if the BMCCluster is, then through any
-- runs of it and of machines of its control plane, in any order, each machine run reads or
-- deprovisions one server or asks for one server at most, and every server that is asked for is put
-- into the one block that the cluster holds in the end.
pub Joint-AllPlaced :
    {c d : BmcCluster} {ts : List Turn}
    → Joint c d ts
    → IsFounded c
    → c.spec.vip_manager ≡ vip_none
    → AllPlaced (get_ip_allocation_id d) ts
Joint-AllPlaced {d} {ts} j founded bare =
    AllPlaced-of_AllSettled d ts (Joint-AllSettled j founded bare).2
