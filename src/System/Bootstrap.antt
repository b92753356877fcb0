-- ===== src/System/Bootstrap.antt =====
-- From a new machine to a ready one: the run that creates its server, any runs between, and one
-- that finds the server powered on.
use mathlib.Core.Path.{subst}
use cluster_api_provider_bmc.Base.{
  ◌≡◌, ◌≢◌, ◌∙◌, sym, ap, inl, inr, true, arith, some, none, String, List, ◌∷◌,
}
use cluster_api_provider_bmc.Constants.Status
use cluster_api_provider_bmc.Api.Machine.{BmcMachine, BmcMachineStatus}
use cluster_api_provider_bmc.MachineController.State.{get_machine_id, provider_id_of, add_fini}
use cluster_api_provider_bmc.MachineController.Synchronize.{get_server_call}
use cluster_api_provider_bmc.MachineController.Reconcile.{reconcile_live}
use cluster_api_provider_bmc.MachineController.PollSpec.{observed, reported}
use cluster_api_provider_bmc.MachineController.Linked.{IsLinked}
use cluster_api_provider_bmc.MachineController.Creation.{Sent, Made, create_links}
use cluster_api_provider_bmc.MachineController.Live.{with_fini}
use cluster_api_provider_bmc.MachineController.Liveness.{
  IsDue, context_for, due_run, History-becomes_ready,
}
use cluster_api_provider_bmc.MachineController.History.{
  Turn, run_of, History, run, OnlyAbout, History-OnlyAbout, History-IsLinked,
}

-- The object that a run that is due leaves.
abbrev pub left_by : {m : BmcMachine} (t : Turn) → IsDue t m → BmcMachine
left_by t due = (reconcile_live t.env due.cluster due.bmc_cluster (context_for due)).0.bmc_machine

live_links :
    {m : BmcMachine} (t : Turn) (due : IsDue t m)
    (sent : Sent t.env due.bmc_cluster (context_for due)) {ss : BmcMachineStatus}
    → Made t.env sent.body ss
    → get_machine_id m ≡ ""
    → m.meta.annotations ≢ none
    → (get_machine_id (left_by t due) ≡ ss.bmc_server_id)
      × ((left_by t due).spec.provider_id ≡ some (provider_id_of ss.bmc_server_id))
unfolding reconcile_live add_fini get_machine_id with_fini
live_links t due sent made unserved annotated =
    let c = due.bmc_cluster in
    let mc = context_for due in
    ground (
      arith,
      due.ready,
      due.named,
      create_links t.env c mc sent made annotated,
      create_links t.env c (add_fini t.env mc) (with_fini t.env c mc sent) made annotated,
    )

linked-provider :
    (n : BmcMachine) (id : String)
    → IsLinked n
    → id ≢ ""
    → get_machine_id n ≡ id
    → n.spec.provider_id ≡ some (provider_id_of id)
linked-provider n id (inl unserved) given same = absurd (given (sym same ∙ unserved))
linked-provider n id (inr linked) given same = linked ∙ ap (λ i. some (provider_id_of i)) same

-- Let a machine with annotations and no server be due, and BMC answer the request for its server by
-- one with an id; let any runs follow, and then one that is due and to which BMC answers that this
-- server is powered on. Then the machine is ready, holds this id and the provider id made of it, and
-- every call after the creation reads or deprovisions this server: there is no second one.
pub create-becomes_ready :
    {m n : BmcMachine} (t : Turn) (due : IsDue t m)
    (sent : Sent t.env due.bmc_cluster (context_for due)) {ss : BmcMachineStatus}
    → Made t.env sent.body ss
    → get_machine_id m ≡ ""
    → m.meta.annotations ≢ none
    → ss.bmc_server_id ≢ ""
    → {ts : List Turn} (h : History (left_by t due) n ts)
    → (t' : Turn) (due' : IsDue t' n) {ss' : BmcMachineStatus}
    → observed t'.env (t'.env.http (get_server_call t'.env ss.bmc_server_id)) ≡ reported ss'
    → ss'.bmc_status ≡ Status.powered_on
    → let n' = left_by t' due' in
      ((run_of t).patched ≡ some (left_by t due))
      × ((run_of t').patched ≡ some n')
      × (n'.status.ready ≡ true)
      × (get_machine_id n' ≡ ss.bmc_server_id)
      × (n'.spec.provider_id ≡ some (provider_id_of ss.bmc_server_id))
      × OnlyAbout ss.bmc_server_id (t' ∷ ts)
create-becomes_ready t due sent {ss} made unserved annotated given {ts} h t' due' seen on =
    let (held, linked) = live_links t due sent made unserved annotated in
    let served : get_machine_id (left_by t due) ≢ "" = λ e. given (sym held ∙ e) in
    let is_linked : IsLinked (left_by t due) =
      inr (linked ∙ ap (λ i. some (provider_id_of i)) (sym held)) in
    let (patched, ready) =
      History-becomes_ready h served is_linked t' due'
        (ap (λ id. observed t'.env (t'.env.http (get_server_call t'.env id))) held ∙ seen) on in
    let h' = run t' h due'.found patched in
    let (same, about) = History-OnlyAbout h' served in
    (
      due_run t due,
      patched,
      ready,
      same ∙ held,
      linked-provider (left_by t' due') ss.bmc_server_id (History-IsLinked h' is_linked) given
          (same ∙ held),
      subst (λ id. OnlyAbout id (t' ∷ ts)) held about,
    )
