-- ===== src/ClusterController/Delete.antt =====
-- `reconcileDelete` of controllers/bmccluster_controller.go.
use cluster_api_provider_bmc.Base.{String, ◌<>◌, none, some, string_eq, if◌then◌else◌}
use cluster_api_provider_bmc.Go.{Flow, done, panic, Outcome, returned, panicked, no_requeue}
use cluster_api_provider_bmc.Constants.{event_type_normal}
use cluster_api_provider_bmc.Constants.Status
use cluster_api_provider_bmc.Outside.{HttpRequest, HttpAnswer, failed, answered, call}
use cluster_api_provider_bmc.ClusterController.State.{
  Environment, ClusterContext, emit, record_event, get_ip_allocation_id, is_status_equal,
  remove_fini,
}

module _ (env : Environment) where
  unfoldable pub delete_block_call : String → HttpRequest
  delete_block_call id = record {
    method = "DELETE";
    url = env.endpoint_url <> "/ips/v1/ip-blocks/" <> id;
    content_type = "";
    body = "";
  }

  -- A failed call is logged, and then the body of the nil response is closed, which panics. The
  -- status code of an answer is not looked at.
  close_body : HttpAnswer → ClusterContext → Flow ClusterContext
  close_body (failed e) cc = panic cc
  close_body (answered code body) cc = done cc

  -- The error of `http.NewRequest` is dropped, and `Do` panics on the nil request.
  delete_block : ClusterContext → Flow ClusterContext
  unfolding close_body
  delete_block cc =
      let sent = delete_block_call (get_ip_allocation_id cc.bmc_cluster) in
      elim (env.new_request sent) [
        | some e ↦ panic cc
        | none ↦ close_body (env.http sent) (emit (call sent) cc)
      ]

  finish_delete : Flow ClusterContext → ClusterContext × Outcome
  finish_delete (panic cc) = (cc, panicked)
  finish_delete (done cc) = (
    remove_fini env (
        record_event event_type_normal "ClusterDeleted"
          ("Deleted cluster " <> cc.bmc_cluster.meta.namespace <> "/" <> cc.bmc_cluster.meta.name)
          cc),
    returned no_requeue none,
  )

  unfoldable pub reconcile_delete : ClusterContext → ClusterContext × Outcome
  unfolding finish_delete delete_block
  reconcile_delete cc =
      finish_delete (if is_status_equal cc Status.not_assigned then delete_block cc else done cc)
