-- ===== src/MachineController/Live.antt =====
-- `reconcileLive`: when a server is created, when it is polled, and the finalizer.
use cluster_api_provider_bmc.Base.{◌≡◌, refl, ◌≢◌, ◌⊎◌, arith, true, false, none, [], ◌∷◌}
use cluster_api_provider_bmc.Go.{returned, no_requeue}
use cluster_api_provider_bmc.Api.Cluster.{BmcCluster}
use cluster_api_provider_bmc.Api.Machine.{BmcMachineStatus, machine_finalizer}
use cluster_api_provider_bmc.Outside.{Cluster, IsLawful, calls}
use cluster_api_provider_bmc.MachineController.Environment.{Environment}
use cluster_api_provider_bmc.MachineController.State.{
  MachineContext, get_data_secret_value, get_machine_id, has_fini, add_fini,
}
use cluster_api_provider_bmc.MachineController.Create.{
  new_server_request, network_request, create_server_call, reconcile_create,
}
use cluster_api_provider_bmc.MachineController.Synchronize.{get_server_call}
use cluster_api_provider_bmc.MachineController.Reconcile.{reconcile_live}
use cluster_api_provider_bmc.MachineController.Frame.{synchronize_frame, create-finalizers}
use cluster_api_provider_bmc.MachineController.Calls.{synchronize-calls}
use cluster_api_provider_bmc.MachineController.Creation.{
  Sent, Made, create-calls, create_links, create_forgets,
}

module _ (env : Environment) (cluster : Cluster) (c : BmcCluster) (mc : MachineContext) where
  -- Whatever happens, the machine has the finalizer afterwards.
  pub live-has_fini :
      IsLawful env.finalizers → has_fini env (reconcile_live env cluster c mc).0.bmc_machine ≡ true
  unfolding reconcile_live has_fini add_fini
  live-has_fini lawful = ground (
    arith,
    lawful.contains-add mc.bmc_machine.meta.finalizers machine_finalizer,
    create-finalizers env c mc,
    create-finalizers env c (add_fini env mc),
    synchronize_frame env cluster mc,
    synchronize_frame env cluster (add_fini env mc),
  )

  -- Without a ready infrastructure, or without the name of the bootstrap secret, BMC is not called
  -- and nothing is recorded; the controller waits for an event.
  pub live_waits :
      (cluster.infrastructure_ready ≡ false) ⊎ (mc.machine.data_secret_name ≡ none)
      → let (mc', outcome) = reconcile_live env cluster c mc in
        (mc'.trace ≡ mc.trace)
        × (mc'.bmc_machine.status ≡ mc.bmc_machine.status)
        × (outcome ≡ returned no_requeue none)
  unfolding reconcile_live add_fini
  live_waits early = ground arith

  -- A machine that has a server id is polled by that id, and never gets a second server.
  pub live-calls :
      mc.trace ≡ []
      → cluster.infrastructure_ready ≡ true
      → mc.machine.data_secret_name ≢ none
      → get_machine_id mc.bmc_machine ≢ ""
      → calls (reconcile_live env cluster c mc).0.trace
        ≡ get_server_call env (get_machine_id mc.bmc_machine) ∷ []
  unfolding reconcile_live add_fini get_machine_id
  live-calls fresh ready named created =
      ground
        (arith, synchronize-calls env cluster mc, synchronize-calls env cluster (add_fini env mc))

-- The context of the next run, on the object that the creation left.
abbrev pub next_context : Environment → BmcCluster → MachineContext → MachineContext
next_context env c mc = record {
  machine = mc.machine;
  bmc_machine = (reconcile_create env c mc).0.bmc_machine;
  trace = [];
}

-- After a run that created a server with an id, the next run, on the object that the first one
-- left, polls that server: its one call reads the id that BMC gave.
pub live_after_create :
    (env env' : Environment) (cluster : Cluster) (c : BmcCluster) (mc : MachineContext)
    (sent : Sent env c mc) {ss : BmcMachineStatus}
    → Made env sent.body ss
    → mc.bmc_machine.meta.annotations ≢ none
    → ss.bmc_server_id ≢ ""
    → cluster.infrastructure_ready ≡ true
    → mc.machine.data_secret_name ≢ none
    → calls (reconcile_live env' cluster c (next_context env c mc)).0.trace
      ≡ get_server_call env' ss.bmc_server_id ∷ []
live_after_create env env' cluster c mc sent {ss} made annotated named_id ready named =
    let linked = (create_links env c mc sent made annotated).0 in
    ground (arith, linked, live-calls env' cluster c (next_context env c mc))

-- The finalizer plays no part in the request.
unfoldable pub with_fini :
    (env : Environment) (c : BmcCluster) (mc : MachineContext)
    → Sent env c mc
    → Sent env c (add_fini env mc)
unfolding add_fini get_data_secret_value network_request new_server_request
with_fini env c mc sent = record {
  bootstrap = sent.bootstrap;
  request = sent.request;
  body = sent.body;
  secret = sent.secret;
  placed = sent.placed;
  marshalled = sent.marshalled;
}

serverless-live-calls :
    (env : Environment) (cluster : Cluster) (c : BmcCluster) (mc : MachineContext)
    (sent : Sent env c mc)
    → mc.trace ≡ []
    → cluster.infrastructure_ready ≡ true
    → mc.machine.data_secret_name ≢ none
    → get_machine_id mc.bmc_machine ≡ ""
    → calls (reconcile_live env cluster c mc).0.trace ≡ create_server_call env sent.body ∷ []
unfolding reconcile_live add_fini get_machine_id with_fini
serverless-live-calls env cluster c mc sent fresh ready named unserved = ground (
  arith,
  create-calls env c mc sent fresh,
  create-calls env c (add_fini env mc) (with_fini env c mc sent) fresh,
)

-- After a run that created a server for a machine with no annotations at all, the next run, on the
-- object that the first one left, asks BMC for another server.
pub live_after_forgotten :
    (env env' : Environment) (cluster : Cluster) (c : BmcCluster) (mc : MachineContext)
    (sent : Sent env c mc) {ss : BmcMachineStatus}
    → Made env sent.body ss
    → mc.bmc_machine.meta.annotations ≡ none
    → cluster.infrastructure_ready ≡ true
    → mc.machine.data_secret_name ≢ none
    → (sent' : Sent env' c (next_context env c mc))
    → calls (reconcile_live env' cluster c (next_context env c mc)).0.trace
      ≡ create_server_call env' sent'.body ∷ []
live_after_forgotten env env' cluster c mc sent made bare ready named sent' =
    let (_, forgotten, _) = create_forgets env c mc sent made bare in
    serverless-live-calls env' cluster c (next_context env c mc) sent' refl ready named forgotten
