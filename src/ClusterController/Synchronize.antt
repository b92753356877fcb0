-- ===== src/ClusterController/Synchronize.antt =====
-- `reconcileSynchronize` of controllers/bmccluster_controller.go: one poll of the address block.
use cluster_api_provider_bmc.Base.{
  ℕ, String, ◌<>◌, ◌&&◌, not, none, some, ◌==◌, nat_eq, string_eq, if◌then◌else◌,
}
use cluster_api_provider_bmc.Go.{
  GoError, ok, err, Outcome, returned, no_requeue, requeue_after_2_min, requeue_after_5_min,
}
use cluster_api_provider_bmc.Go.Format.{itoa}
use cluster_api_provider_bmc.Constants.{event_type_normal, event_type_warning, is_success}
use cluster_api_provider_bmc.Constants.EventReason
use cluster_api_provider_bmc.Constants.Status
use cluster_api_provider_bmc.Api.Cluster.{BmcClusterStatus, vip_none, vip_kubevip}
use cluster_api_provider_bmc.Outside.{HttpRequest, HttpAnswer, failed, answered, call}
use cluster_api_provider_bmc.ClusterController.Answer.{unmarshal}
use cluster_api_provider_bmc.ClusterController.State.{
  Environment, ClusterContext, emit, record_event, get_ip_allocation_id, get_bmc_status,
  is_status_equal, set_bmc_status, set_status, set_ready, is_ready,
}

-- The change to status `s`, reported once: every failed poll has this form.
unfoldable pub mark : String → String → String → String → ClusterContext → ClusterContext
mark s eventtype reason message cc =
    if is_status_equal cc s then cc else set_bmc_status s (record_event eventtype reason message cc)

abbrev change_message : ClusterContext → String → String
change_message cc s = get_bmc_status cc <> " -> " <> s

-- The client or the body failed.
poll_failed : GoError → ClusterContext → ClusterContext × Outcome
unfolding mark
poll_failed e cc = (
  mark Status.stale event_type_normal EventReason.status_change (change_message cc Status.stale) cc,
  returned requeue_after_2_min (some e),
)

-- "Detect a status delta"
unfoldable pub apply_delta : BmcClusterStatus → ClusterContext → ClusterContext
unfolding set_status
apply_delta ss cc =
    if is_status_equal cc ss.bmc_status
    then cc
    else set_status ss (
        record_event event_type_normal EventReason.status_change (change_message cc ss.bmc_status)
          cc)

-- The two tests that may set the infrastructure to ready, one after the other.
unfoldable pub ready_without_vip : ClusterContext → ClusterContext
ready_without_vip cc =
    if is_status_equal cc Status.assigned
      && (cc.bmc_cluster.spec.vip_manager == vip_none && not (is_ready cc))
    then set_ready cc
    else cc

unfoldable pub ready_with_kubevip : ClusterContext → ClusterContext
ready_with_kubevip cc =
    if is_status_equal cc Status.not_assigned
      && (cc.bmc_cluster.spec.vip_manager == vip_kubevip && not (is_ready cc))
    then set_ready cc
    else cc

module _ (env : Environment) where
  polled : String → ClusterContext → ClusterContext × Outcome
  unfolding mark apply_delta ready_without_vip ready_with_kubevip
  polled body cc = elim (unmarshal env body) [
    | err e ↦ (
      mark Status.stale event_type_warning EventReason.poll_failure ("error: " <> e.message) cc,
      returned requeue_after_2_min (some e),
    )
    | ok ss ↦ (
      ready_with_kubevip (ready_without_vip (apply_delta ss cc)),
      returned requeue_after_5_min none,
    )
  ]

  -- The `switch` over the status code. The `err` that its cases return is nil there.
  unfoldable pub poll_switch : ℕ → String → ClusterContext → ClusterContext × Outcome
  unfolding polled
  poll_switch code body cc =
      if code == 400
      then (
        mark Status.irreconcilable event_type_warning EventReason.poll_failure
            ("Code: " <> itoa code) cc,
        returned requeue_after_5_min none,
      )
      else if code == 401
      then (
        mark Status.irreconcilable event_type_warning EventReason.poll_failure
            ("Code: " <> itoa code) cc,
        returned requeue_after_5_min none,
      )
      else if code == 403
      then (
        mark Status.orphaned event_type_warning EventReason.resource_orphaned
            ("Access to BMC resource was denied: " <> itoa code) cc,
        returned no_requeue none,
      )
      else if code == 500
      then (
        mark Status.stale event_type_warning EventReason.resource_orphaned
            ("Access to BMC resource was denied: " <> itoa code) cc,
        returned requeue_after_5_min none,
      )
      else if is_success code
      then polled body cc
      else (
        record_event event_type_warning EventReason.poll_failure
            ("Unexpected response from API: " <> itoa code) cc,
        returned no_requeue
            (some (record { message = "Unexpected response during server poll: " <> itoa code })),
      )

  unfoldable pub poll_answer : HttpAnswer → ClusterContext → ClusterContext × Outcome
  unfolding poll_failed poll_switch
  poll_answer (failed e) cc = poll_failed e cc
  poll_answer (answered code (err e)) cc = poll_failed e cc
  poll_answer (answered code (ok body)) cc = poll_switch code body cc

  unfoldable pub get_block_call : String → HttpRequest
  get_block_call id = record {
    method = "GET";
    url = env.endpoint_url <> "/ips/v1/ip-blocks/" <> id;
    content_type = "";
    body = "";
  }

  unfoldable pub reconcile_synchronize : ClusterContext → ClusterContext × Outcome
  unfolding poll_answer
  reconcile_synchronize cc =
      let sent = get_block_call (get_ip_allocation_id cc.bmc_cluster) in
      poll_answer (env.http sent) (emit (call sent) cc)
