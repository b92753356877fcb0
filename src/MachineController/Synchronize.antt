-- ===== src/MachineController/Synchronize.antt =====
-- `reconcileSynchronize` of controllers/bmcmachine_controller.go: one poll of an existing server.
use cluster_api_provider_bmc.Base.{
  ℕ, String, ◌<>◌, none, some, ◌==◌, nat_eq, string_eq, if◌then◌else◌,
}
use cluster_api_provider_bmc.Go.{
  GoError, ok, err, Flow, done, panic, Outcome, returned, panicked, no_requeue, requeue_after_1_min,
  requeue_after_2_min, requeue_after_5_min,
}
use cluster_api_provider_bmc.Go.Format.{itoa}
use cluster_api_provider_bmc.Constants.{event_type_normal, event_type_warning, is_success}
use cluster_api_provider_bmc.Constants.EventReason
use cluster_api_provider_bmc.Constants.Status
use cluster_api_provider_bmc.Api.Machine.{
  BmcMachineStatus, invalid_configuration_machine_error, create_machine_error,
}
use cluster_api_provider_bmc.Outside.{Cluster, HttpRequest, HttpAnswer, failed, answered, call}
use cluster_api_provider_bmc.MachineController.Environment.{Environment}
use cluster_api_provider_bmc.MachineController.State.{
  MachineContext, emit, record_event, get_machine_id, get_bmc_status, is_status_equal,
  set_irreconcilable, set_bmc_status, merge_bmc_status_properties, set_ready, is_ready,
}
use cluster_api_provider_bmc.MachineController.NodeRef.{set_node_ref}

-- The change to status `s`, reported once: every failed poll has this form.
unfoldable pub mark : String → String → String → String → MachineContext → MachineContext
mark s eventtype reason message mc =
    if is_status_equal mc s then mc else set_bmc_status s (record_event eventtype reason message mc)

abbrev pub change_message : MachineContext → String → String
change_message mc s = get_bmc_status mc <> " -> " <> s

-- The client or the body failed.
unfoldable pub poll_failed : GoError → MachineContext → MachineContext × Outcome
unfolding mark
poll_failed e mc = (
  mark Status.stale event_type_normal EventReason.status_change (change_message mc Status.stale) mc,
  returned requeue_after_2_min (some e),
)

-- `case 400` and `case 401`
unfoldable pub refuse_poll : ℕ → MachineContext → MachineContext
unfolding set_irreconcilable
refuse_poll code mc =
    if is_status_equal mc Status.irreconcilable
    then mc
    else set_irreconcilable invalid_configuration_machine_error ("BMC read code " <> itoa code)
        (record_event event_type_warning EventReason.poll_failure ("Code: " <> itoa code) mc)

-- The `switch` over the merged status.
unfoldable pub settle : MachineContext → MachineContext
unfolding set_ready set_irreconcilable
settle mc =
    if get_bmc_status mc == Status.powered_on
    then set_ready mc
    else if get_bmc_status mc == Status.error
    then set_irreconcilable create_machine_error
        "unrecoverable error while creating the resource at BMC" mc
    else mc

-- "Detect a status delta"
unfoldable pub apply_delta : BmcMachineStatus → MachineContext → MachineContext
unfolding settle merge_bmc_status_properties
apply_delta ss mc =
    if is_status_equal mc ss.bmc_status
    then mc
    else settle (
        merge_bmc_status_properties ss
          (record_event "Normal" EventReason.status_change (change_message mc ss.bmc_status) mc))

ensure_ready : BmcMachineStatus → MachineContext → MachineContext
ensure_ready ss mc = if is_ready mc then mc else set_ready (merge_bmc_status_properties ss mc)

power_on : BmcMachineStatus → Flow MachineContext → MachineContext × Outcome
unfolding ensure_ready set_ready merge_bmc_status_properties
power_on ss (panic mc) = (mc, panicked)
power_on ss (done mc) = (ensure_ready ss mc, returned requeue_after_2_min none)

module _ (env : Environment) where
  unfoldable pub get_server_call : String → HttpRequest
  get_server_call id = record {
    method = "GET";
    url = env.endpoint_url <> "/bmc/v1/servers/" <> id;
    content_type = "";
    body = "";
  }

module _ (env : Environment) (cluster : Cluster) where
  -- The last `switch`, on the status that BMC reported.
  unfoldable pub schedule_poll : BmcMachineStatus → MachineContext → MachineContext × Outcome
  unfolding power_on set_node_ref
  schedule_poll ss mc =
      if ss.bmc_status == Status.powered_on
      then power_on ss (set_node_ref env cluster mc)
      else if ss.bmc_status == Status.error
      then (mc, returned no_requeue none)
      else (mc, returned requeue_after_1_min none)

  unfoldable pub polled : String → MachineContext → MachineContext × Outcome
  unfolding schedule_poll apply_delta mark
  polled body mc = elim (env.unmarshal body) [
    | err e ↦ (
      mark Status.stale event_type_warning EventReason.poll_failure ("error: " <> e.message) mc,
      returned requeue_after_2_min (some e),
    )
    | ok ss ↦ schedule_poll ss (apply_delta ss mc)
  ]

  -- The `switch` over the status code. The event of `case 403` passes an argument that its format
  -- does not use, which `fmt` appends.
  unfoldable pub poll_switch : ℕ → String → MachineContext → MachineContext × Outcome
  unfolding polled refuse_poll
  poll_switch code body mc =
      if code == 400
      then (refuse_poll code mc, returned requeue_after_5_min none)
      else if code == 401
      then (refuse_poll code mc, returned requeue_after_5_min none)
      else if code == 403
      then (
        mark Status.orphaned event_type_warning EventReason.resource_orphaned
            ("Access to BMC resource was denied%!(EXTRA int=" <> itoa code <> ")") mc,
        returned no_requeue none,
      )
      else if code == 500
      then (
        mark Status.stale event_type_warning EventReason.poll_failure ("Code: " <> itoa code) mc,
        returned requeue_after_5_min none,
      )
      else if is_success code
      then polled body mc
      else (
        record_event event_type_warning EventReason.poll_failure
            ("Unexpected response from API: " <> itoa code) mc,
        returned no_requeue
            (some (record { message = "unexpected response during server poll: " <> itoa code })),
      )

  unfoldable pub poll_answer : HttpAnswer → MachineContext → MachineContext × Outcome
  unfolding poll_switch poll_failed
  poll_answer (failed e) mc = poll_failed e mc
  poll_answer (answered code (err e)) mc = poll_failed e mc
  poll_answer (answered code (ok body)) mc = poll_switch code body mc

  unfoldable pub reconcile_synchronize : MachineContext → MachineContext × Outcome
  unfolding poll_answer
  reconcile_synchronize mc =
      let sent = get_server_call env (get_machine_id mc.bmc_machine) in
      poll_answer (env.http sent) (emit (call sent) mc)
