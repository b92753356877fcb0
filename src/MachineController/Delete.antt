-- ===== src/MachineController/Delete.antt =====
-- `reconcileDelete` of controllers/bmcmachine_controller.go.
use cluster_api_provider_bmc.Base.{
  ℕ, String, ◌<>◌, ◌&&◌, ◌||◌, not, none, some, ◌==◌, nat_eq, string_eq, if◌then◌else◌,
}
use cluster_api_provider_bmc.Go.{
  GoError, ok, err, Outcome, returned, no_requeue, requeue_after_2_min,
}
use cluster_api_provider_bmc.Go.Format.{is_empty, itoa}
use cluster_api_provider_bmc.Constants.{is_success}
use cluster_api_provider_bmc.Constants.EventReason
use cluster_api_provider_bmc.Constants.Status
use cluster_api_provider_bmc.Outside.{HttpRequest, HttpAnswer, failed, answered, call}
use cluster_api_provider_bmc.MachineController.Environment.{Environment}
use cluster_api_provider_bmc.MachineController.State.{
  MachineContext, emit, record_event, get_machine_id, is_status_equal, set_bmc_status, remove_fini,
}

module _ (env : Environment) where
  unfoldable pub deprovision_call : String → HttpRequest
  deprovision_call id = record {
    method = "POST";
    url = env.endpoint_url <> "/bmc/v1/servers/" <> id <> "/actions/deprovision";
    content_type = "application/json";
    body = "{\"deleteIpBlocks\":true}";
  }

  cleanup_failed : GoError → MachineContext → MachineContext × Outcome
  cleanup_failed e mc =
      (record_event "Warning" EventReason.cleanup_error e.message mc, returned no_requeue (some e))

  -- The `switch` over the status code, with the return after it.
  unfoldable pub delete_switch : String → ℕ → MachineContext → MachineContext × Outcome
  delete_switch id code mc =
      if code == 400 || code == 401
      then (set_bmc_status Status.irreconcilable mc, returned requeue_after_2_min none)
      else if code == 403
      then (set_bmc_status Status.orphaned mc, returned requeue_after_2_min none)
      else if code == 500
      then (mc, returned requeue_after_2_min none)
      else if is_success code
      then (
        record_event "Normal" EventReason.cleanup_success ("Deleted BMC server " <> id) mc,
        returned no_requeue none,
      )
      else (
        record_event "Warning" EventReason.cleanup_error
            ("Unexpected response from API: " <> itoa code) mc,
        returned requeue_after_2_min
            (some (record { message = "Unexpected response during server delete: " <> itoa code })),
      )

  unfoldable pub delete_answer : String → HttpAnswer → MachineContext → MachineContext × Outcome
  unfolding delete_switch cleanup_failed
  delete_answer id (failed e) mc = cleanup_failed e mc
  delete_answer id (answered code (err e)) mc = cleanup_failed e mc
  delete_answer id (answered code (ok body)) mc = delete_switch id code mc

  deprovision : String → MachineContext → MachineContext × Outcome
  unfolding delete_answer
  deprovision id mc =
      let sent = deprovision_call id in
      elim (env.new_request sent) [
        | some e ↦ cleanup_failed e mc
        | none ↦ delete_answer id (env.http sent) (emit (call sent) mc)
      ]

  unfoldable pub reconcile_delete : MachineContext → MachineContext × Outcome
  unfolding deprovision remove_fini
  reconcile_delete mc =
      let mc' = remove_fini env mc in
      let id = get_machine_id mc'.bmc_machine in
      if not (is_status_equal mc' Status.orphaned) && not (is_empty id)
      then deprovision id mc'
      else (mc', returned no_requeue none)
