-- ===== src/MachineController/Create.antt =====
-- `reconcileCreate` of controllers/bmcmachine_controller.go: the request for a server, and what the
-- answer to it does to the BMCMachine.
use cluster_api_provider_bmc.Base.{
  ℕ, String, ◌<>◌, ◌&&◌, ◌||◌, Option, none, some, List, [], ◌∷◌, ◌==◌, nat_eq, string_eq,
  if◌then◌else◌,
}
use cluster_api_provider_bmc.Go.{
  GoError, ok, err, Flow, done, panic, Outcome, returned, panicked, no_requeue, requeue_after_1_min,
  requeue_after_2_min, requeue_after_5_min,
}
use cluster_api_provider_bmc.Go.Base64.{encode}
use cluster_api_provider_bmc.Go.Format.{is_empty, itoa}
use cluster_api_provider_bmc.Constants.{event_type_normal, event_type_warning, is_success}
use cluster_api_provider_bmc.Constants.EventReason
use cluster_api_provider_bmc.Constants.Status
use cluster_api_provider_bmc.Api.Machine.{BmcMachineStatus, invalid_configuration_machine_error}
use cluster_api_provider_bmc.Api.Cluster.{BmcCluster, vip_none}
use cluster_api_provider_bmc.Outside.{HttpRequest, HttpAnswer, failed, answered, call}
use cluster_api_provider_bmc.MachineController.Codec.{marshal}
use cluster_api_provider_bmc.MachineController.Environment.{Environment, BmcCreateServerRequest}
use cluster_api_provider_bmc.MachineController.State.{
  MachineContext, emit, record_event, get_data_secret_value, get_hostname, is_status_equal,
  get_cluster_ip_allocation_id, set_irreconcilable, set_status, set_machine_id,
}

module _ (env : Environment) where
  -- The request before the network configuration is set, which is its zero value.
  unfoldable pub new_server_request : MachineContext → List ℕ → BmcCreateServerRequest
  unfolding encode
  new_server_request mc bootstrap = record {
    hostname = get_hostname mc.machine;
    description = mc.bmc_machine.spec.description;
    os = mc.bmc_machine.spec.os;
    type = mc.bmc_machine.spec.type;
    location = mc.bmc_machine.spec.location;
    install_default_ssh_keys = mc.bmc_machine.spec.install_default_ssh_keys;
    ssh_key_ids = mc.bmc_machine.spec.ssh_key_ids;
    network_type = mc.bmc_machine.spec.network_type;
    os_configuration = record { cloud_init = record { user_data = encode bootstrap } };
    network_configuration = record {
      ip_blocks_configuration = record { configuration_type = ""; ip_blocks = [] };
    };
  }

  unfoldable pub with_ip_block : String → BmcCreateServerRequest → BmcCreateServerRequest
  with_ip_block ipid request = record request {
    network_configuration = record {
      ip_blocks_configuration = record {
        configuration_type = "USER_DEFINED";
        ip_blocks = (record { id = ipid }) ∷ [];
      };
    };
  }

  -- A control plane machine of a cluster with no VIP manager is put into the cluster's address
  -- block; `none` is the early return where the block has no id yet.
  unfoldable pub network_request :
      BmcCluster → MachineContext → BmcCreateServerRequest → Option BmcCreateServerRequest
  network_request bmc_cluster mc request =
      if env.is_control_plane_machine mc.machine && bmc_cluster.spec.vip_manager == vip_none
      then (let ipid = get_cluster_ip_allocation_id bmc_cluster in
          if is_empty ipid then none else some (with_ip_block ipid request))
      else some request

  unfoldable pub create_server_call : String → HttpRequest
  create_server_call body = record {
    method = "POST";
    url = env.endpoint_url <> "/bmc/v1/servers";
    content_type = "application/json";
    body = body;
  }

  -- `case 400, 401, 403` and `case 409` report once, and mark the machine.
  unfoldable pub refuse_create : ℕ → MachineContext → MachineContext
  unfolding set_irreconcilable
  refuse_create code mc =
      if is_status_equal mc Status.irreconcilable
      then mc
      else set_irreconcilable invalid_configuration_machine_error ("BMC create code " <> itoa code)
          (record_event event_type_warning EventReason.create_error_permanent
            ("Code: " <> itoa code) mc)

  create_failed : GoError → MachineContext → MachineContext × Outcome
  create_failed e mc = (
    record_event event_type_warning EventReason.create_error e.message mc,
    returned no_requeue (some e),
  )

  finish_create : Flow MachineContext → MachineContext × Outcome
  finish_create (done mc) = (mc, returned requeue_after_1_min none)
  finish_create (panic mc) = (mc, panicked)

  -- The end of the method: the status and the server id of the answer are stored.
  unfoldable pub adopt_server : BmcMachineStatus → MachineContext → MachineContext × Outcome
  unfolding finish_create set_machine_id
  adopt_server ss mc = finish_create (
      set_machine_id ss.bmc_server_id (
        set_status ss (
          record_event event_type_normal EventReason.created
            ("creatd BMC server " <> ss.bmc_server_id) mc)))

  created : String → MachineContext → MachineContext × Outcome
  unfolding create_failed adopt_server
  created body mc = elim (env.unmarshal body) [
    | err e ↦ create_failed e mc
    | ok ss ↦ adopt_server ss mc
  ]

  -- The `switch` over the status code. The `err` that some of its cases return is nil there.
  unfoldable pub create_switch : ℕ → String → MachineContext → MachineContext × Outcome
  unfolding refuse_create created
  create_switch code body mc =
      if code == 400 || code == 401 || code == 403
      then (refuse_create code mc, returned no_requeue none)
      else if code == 406
      then (
        record_event event_type_warning EventReason.create_error_inventory ("Code: " <> itoa code)
            mc,
        returned requeue_after_5_min none,
      )
      else if code == 409
      then (refuse_create code mc, returned requeue_after_2_min none)
      else if code == 500
      then (
        record_event event_type_warning EventReason.create_failure "Temporary API failure" mc,
        returned requeue_after_2_min none,
      )
      else if is_success code
      then created body mc
      else (
        record_event event_type_warning EventReason.create_error
            ("Unexpected response from API: " <> itoa code) mc,
        returned no_requeue
            (some (record { message = "Unexpected response during server create: " <> itoa code })),
      )

  unfoldable pub create_answer : HttpAnswer → MachineContext → MachineContext × Outcome
  unfolding create_failed create_switch
  create_answer (failed e) mc = create_failed e mc
  create_answer (answered code (err e)) mc = create_failed e mc
  create_answer (answered code (ok body)) mc = create_switch code body mc

  post_server : BmcCreateServerRequest → MachineContext → MachineContext × Outcome
  unfolding create_answer
  post_server request mc = elim (marshal request) [
    | err e ↦ (mc, returned no_requeue (some e))
    | ok body ↦
        let sent = create_server_call body in create_answer (env.http sent) (emit (call sent) mc)
  ]

  request_server : BmcCluster → MachineContext → List ℕ → MachineContext × Outcome
  unfolding post_server
  request_server bmc_cluster mc bootstrap =
      elim (network_request bmc_cluster mc (new_server_request mc bootstrap)) [
        | none ↦ (mc, returned no_requeue none)
        | some request ↦ post_server request mc
      ]

  unfoldable pub reconcile_create : BmcCluster → MachineContext → MachineContext × Outcome
  unfolding request_server
  reconcile_create bmc_cluster mc = elim (get_data_secret_value env mc) [
    | none ↦ (mc, panicked)
    | some (err e) ↦ (mc, returned no_requeue (some e))
    | some (ok bootstrap) ↦ request_server bmc_cluster mc bootstrap
  ]
