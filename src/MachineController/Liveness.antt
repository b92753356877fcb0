-- ===== src/MachineController/Liveness.antt =====
-- A machine whose server comes up becomes ready at the next run, and stays so.
use cluster_api_provider_bmc.Base.{
  ◌≡◌, ◌≢◌, inl, inr, arith, ◌∙◌, sym, ap, String, Option, none, some, true, false, List, [],
  Bool-cases,
}
use mathlib.Core.Option.{some-injective}
use cluster_api_provider_bmc.Go.{Try, ok, err}
use cluster_api_provider_bmc.Constants.Status
use cluster_api_provider_bmc.Api.Cluster.{BmcCluster}
use cluster_api_provider_bmc.Api.Machine.{BmcMachine, BmcMachineStatus}
use cluster_api_provider_bmc.Outside.{Machine, Cluster}
use cluster_api_provider_bmc.MachineController.Environment.{Environment}
use cluster_api_provider_bmc.MachineController.State.{
  MachineContext, get_machine_id, is_marked_deleted, add_fini,
}
use cluster_api_provider_bmc.MachineController.Synchronize.{get_server_call, reconcile_synchronize}
use cluster_api_provider_bmc.MachineController.Delete.{reconcile_delete}
use cluster_api_provider_bmc.MachineController.Reconcile.{
  Lookups, reconcile_live, reconcile_context, with_owner, reconcile,
}
use cluster_api_provider_bmc.MachineController.PollSpec.{observed, observation, reported}
use cluster_api_provider_bmc.MachineController.Linked.{IsLinked}
use cluster_api_provider_bmc.MachineController.Readiness.{synchronize_powered_on, ready_kept}
use cluster_api_provider_bmc.MachineController.History.{
  Turn, run_of, History, start, run, skip, History-IsLinked, History-OnlyAbout,
}

-- The run finds this machine, its owner, its cluster and the cluster's BMCCluster, and nothing
-- keeps it from polling or creating the server.
pub record IsDue (t : Turn) (n : BmcMachine) : Type 0 where
  pub machine : Machine
  pub cluster : Cluster
  pub reference : String
  pub bmc_cluster : BmcCluster
  pub found : t.lookups.get_bmc_machine t.namespace t.name ≡ ok n
  pub owned : t.lookups.get_owner_machine n ≡ ok (some machine)
  pub wanted : is_marked_deleted (some n) ≡ false
  pub clustered : t.lookups.get_cluster_from_metadata machine ≡ ok cluster
  pub referred : cluster.infrastructure_ref ≡ some reference
  pub provided : t.lookups.get_bmc_cluster n.meta.namespace reference ≡ ok bmc_cluster
  pub active : t.lookups.is_paused cluster bmc_cluster ≡ false
  pub ready : cluster.infrastructure_ready ≡ true
  pub named : machine.data_secret_name ≢ none

-- What `reconcileLive` is given.
abbrev pub context_for : {t : Turn} {n : BmcMachine} → IsDue t n → MachineContext
context_for {n = n} due = record { machine = due.machine; bmc_machine = n; trace = [] }

-- A run that is due hands over the object that `reconcileLive` leaves.
pub due_run :
    {n : BmcMachine} (t : Turn) (due : IsDue t n)
    → (run_of t).patched
      ≡ some (reconcile_live t.env due.cluster due.bmc_cluster (context_for due)).0.bmc_machine
unfolding reconcile with_owner reconcile_context
due_run t due =
    ground (
      arith, due.found, due.owned, due.wanted, due.clustered, due.referred, due.provided,
      due.active,
    )

poll_powered_on :
    (env : Environment) (cluster : Cluster) (mc : MachineContext) {ss : BmcMachineStatus}
    → get_machine_id mc.bmc_machine ≢ ""
    → IsLinked mc.bmc_machine
    → observation env mc ≡ reported ss
    → ss.bmc_status ≡ Status.powered_on
    → (reconcile_synchronize env cluster mc).0.bmc_machine.status.ready ≡ true
poll_powered_on env cluster mc served (inl none_yet) seen on = absurd (served none_yet)
poll_powered_on env cluster mc served (inr linked) seen on =
    elim (Bool-cases mc.bmc_machine.status.ready) [
      | inl was ↦ (ready_kept env cluster mc was).0
      | inr was ↦ (synchronize_powered_on env cluster mc seen on linked (inl was)).0
    ]

live_powered_on :
    (env : Environment) (cluster : Cluster) (c : BmcCluster) (mc : MachineContext)
    {ss : BmcMachineStatus}
    → cluster.infrastructure_ready ≡ true
    → mc.machine.data_secret_name ≢ none
    → get_machine_id mc.bmc_machine ≢ ""
    → IsLinked mc.bmc_machine
    → observation env mc ≡ reported ss
    → ss.bmc_status ≡ Status.powered_on
    → (reconcile_live env cluster c mc).0.bmc_machine.status.ready ≡ true
unfolding reconcile_live add_fini get_machine_id
live_powered_on env cluster c mc ready named served linked seen on = ground (
  arith,
  poll_powered_on env cluster mc served linked seen on,
  poll_powered_on env cluster (add_fini env mc) served linked seen on,
)

-- After any runs of a machine with a server, a run that is due, and to which BMC answers that the
-- server is powered on, makes the machine ready.
pub History-becomes_ready :
    {m n : BmcMachine} {ts : List Turn} {ss : BmcMachineStatus}
    → History m n ts
    → get_machine_id m ≢ ""
    → IsLinked m
    → (t : Turn) (due : IsDue t n)
    → observed t.env (t.env.http (get_server_call t.env (get_machine_id m))) ≡ reported ss
    → ss.bmc_status ≡ Status.powered_on
    → let n' = (reconcile_live t.env due.cluster due.bmc_cluster (context_for due)).0.bmc_machine in
      ((run_of t).patched ≡ some n') × (n'.status.ready ≡ true)
History-becomes_ready h served linked t due seen on =
    let (same, _) = History-OnlyAbout h served in
    (
      due_run t due,
      live_powered_on t.env due.cluster due.bmc_cluster (context_for due) due.ready due.named
          (λ e. served (sym same ∙ e)) (History-IsLinked h linked)
          (ap (λ id. observed t.env (t.env.http (get_server_call t.env id))) same ∙ seen) on,
    )

live-keeps_ready :
    (env : Environment) (cluster : Cluster) (c : BmcCluster) (mc : MachineContext)
    → get_machine_id mc.bmc_machine ≢ ""
    → mc.bmc_machine.status.ready ≡ true
    → (reconcile_live env cluster c mc).0.bmc_machine.status.ready ≡ true
unfolding reconcile_live add_fini get_machine_id
live-keeps_ready env cluster c mc served was =
    ground (arith, ready_kept env cluster mc was, ready_kept env cluster (add_fini env mc) was)

delete-keeps_ready :
    (env : Environment) (mc : MachineContext)
    → mc.bmc_machine.status.ready ≡ true
    → (reconcile_delete env mc).0.bmc_machine.status.ready ≡ true
unfolding reconcile_delete
delete-keeps_ready env mc was = ground arith

context-keeps_ready :
    (env : Environment) (lookups : Lookups) (mc : MachineContext)
    → get_machine_id mc.bmc_machine ≢ ""
    → mc.bmc_machine.status.ready ≡ true
    → (reconcile_context env lookups mc).0.bmc_machine.status.ready ≡ true
unfolding reconcile_context
context-keeps_ready env lookups mc served was = grind (arith, live-keeps_ready, delete-keeps_ready)

with_owner-keeps_ready :
    (env : Environment) (lookups : Lookups) (m m' : BmcMachine) (owner : Try (Option Machine))
    → get_machine_id m ≢ ""
    → m.status.ready ≡ true
    → (with_owner env lookups m owner).patched ≡ some m'
    → m'.status.ready ≡ true
unfolding with_owner
with_owner-keeps_ready env lookups m m' (err e) served was patched = cc
with_owner-keeps_ready env lookups m m' (ok none) served was patched = cc
with_owner-keeps_ready env lookups m m' (ok (some machine)) served was patched =
    let mc : MachineContext = record { machine = machine; bmc_machine = m; trace = [] } in
    let still = context-keeps_ready env lookups mc served was in
    ap (λ k. k.status.ready) (sym (some-injective _ _ patched)) ∙ still

-- A machine that has a server id and is ready stays ready through any runs, failed polls and
-- deletions included.
pub History-keeps_ready :
    {m n : BmcMachine} {ts : List Turn}
    → History m n ts
    → get_machine_id m ≢ ""
    → m.status.ready ≡ true
    → n.status.ready ≡ true
unfolding reconcile
History-keeps_ready start served was = was
History-keeps_ready (run {n = k} {n' = n} t h found patched) served was =
    let (same, _) = History-OnlyAbout h served in
    with_owner-keeps_ready t.env t.lookups k n (t.lookups.get_owner_machine k)
      (λ e. served (sym same ∙ e)) (History-keeps_ready h served was)
      (rw (found, reconcile) at patched)
History-keeps_ready (skip t h bare) served was = History-keeps_ready h served was
