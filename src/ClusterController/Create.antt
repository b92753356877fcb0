-- ===== src/ClusterController/Create.antt =====
-- `reconcileCreate` of controllers/bmccluster_controller.go: the request for an address block, and
-- what the answer to it does to the BMCCluster.
use cluster_api_provider_bmc.Base.{
  ℕ, String, ◌<>◌, ◌||◌, Option, none, some, ◌==◌, nat_eq, string_eq, if◌then◌else◌,
}
use cluster_api_provider_bmc.Go.{
  GoError, ok, err, Flow, done, panic, ◌>>=◌, Outcome, returned, panicked, no_requeue,
}
use cluster_api_provider_bmc.Go.Format.{itoa}
use cluster_api_provider_bmc.Go.Ip.{Ip, trim_suffix, parse_ip, next_address, ip_string}
use cluster_api_provider_bmc.Constants.{event_type_normal, event_type_warning, is_success}
use cluster_api_provider_bmc.Constants.EventReason
use cluster_api_provider_bmc.Constants.Status
use cluster_api_provider_bmc.Api.Cluster.{BmcCluster, BmcClusterStatus}
use cluster_api_provider_bmc.Outside.{HttpRequest, HttpAnswer, failed, answered, call}
use cluster_api_provider_bmc.ClusterController.Codec.{marshal}
use cluster_api_provider_bmc.ClusterController.Answer.{unmarshal}
use cluster_api_provider_bmc.ClusterController.State.{
  IpBlockRequest, Environment, ClusterContext, emit, record_event, is_status_equal, set_bmc_status,
  set_status, set_ip_allocation_id, set_ip, set_control_plane_endpoint, set_ready,
}

unfoldable pub ip_block_request : BmcCluster → IpBlockRequest
ip_block_request c = record {
  cidr_block_size = "/31";
  location = c.spec.location;
  description = "CAPI cluster for BMC " <> c.meta.namespace <> "/" <> c.meta.name;
}

module _ (env : Environment) where
  unfoldable pub create_block_call : String → HttpRequest
  create_block_call body = record {
    method = "POST";
    url = env.endpoint_url <> "/ips/v1/ip-blocks";
    content_type = "application/json";
    body = body;
  }

  create_failed : GoError → ClusterContext → ClusterContext × Outcome
  create_failed e cc = (
    record_event event_type_warning EventReason.create_error e.message cc,
    returned no_requeue (some e),
  )

  -- `case 400, 401, 403`
  refuse_create : ℕ → ClusterContext → ClusterContext
  refuse_create code cc =
      if is_status_equal cc Status.irreconcilable
      then cc
      else set_bmc_status Status.irreconcilable (
          record_event event_type_warning EventReason.create_error_permanent ("Code: " <> itoa code)
            cc)

  -- The address of the control plane is the one after the block's first; a text that is no
  -- address gives a nil slice, and reading its last byte panics.
  unfoldable pub endpoint_ip : String → Option Ip
  unfolding next_address
  endpoint_ip cidr = elim (parse_ip env.parse_ipv6 (trim_suffix cidr "/31")) [
    | none ↦ none
    | some addr ↦ some (next_address addr)
  ]

  assign_ip : Option Ip → ClusterContext → Flow ClusterContext
  unfolding set_ip set_control_plane_endpoint
  assign_ip none cc = panic cc
  assign_ip (some addr) cc = do
    let ip = ip_string env.ipv6_string addr
    cc' ← set_ip ip cc
    done (set_ready (set_control_plane_endpoint ip 6443 cc'))

  finish_create : Flow ClusterContext → ClusterContext × Outcome
  finish_create (done cc) = (cc, returned no_requeue none)
  finish_create (panic cc) = (cc, panicked)

  -- The end of the method: the block is stored, and the cluster gets its address.
  unfoldable pub adopt_block : BmcClusterStatus → ClusterContext → ClusterContext × Outcome
  unfolding assign_ip finish_create endpoint_ip set_status set_ip_allocation_id
  adopt_block ips cc = finish_create do
    cc' ← set_ip_allocation_id ips.id (
        set_status ips (
          record_event event_type_normal EventReason.created ("Created BMC IP-Block " <> ips.id)
            cc))
    assign_ip (endpoint_ip ips.cidr) cc'

  created : String → ClusterContext → ClusterContext × Outcome
  unfolding create_failed adopt_block
  created body cc = elim (unmarshal env body) [
    | err e ↦ create_failed e cc
    | ok ips ↦ adopt_block ips cc
  ]

  -- The `switch` over the status code. The event of the default case formats a number by `%s`.
  unfoldable pub create_switch : ℕ → String → ClusterContext → ClusterContext × Outcome
  unfolding refuse_create created
  create_switch code body cc =
      if code == 400 || code == 401 || code == 403
      then (refuse_create code cc, returned no_requeue none)
      else if code == 500
      then (
        record_event event_type_warning EventReason.create_failure ("Code: " <> itoa code) cc,
        returned no_requeue none,
      )
      else if is_success code
      then created body cc
      else (
        record_event event_type_warning EventReason.create_error
            ("Unexpected response from the API: %!s(int=" <> itoa code <> ")") cc,
        returned no_requeue
            (some (record { message = "Unexpected response during server create: " <> itoa code })),
      )

  unfoldable pub create_answer : HttpAnswer → ClusterContext → ClusterContext × Outcome
  unfolding create_failed create_switch
  create_answer (failed e) cc = create_failed e cc
  create_answer (answered code (err e)) cc = create_failed e cc
  create_answer (answered code (ok body)) cc = create_switch code body cc

  unfoldable pub reconcile_create : ClusterContext → ClusterContext × Outcome
  unfolding create_answer
  reconcile_create cc = elim (marshal (ip_block_request cc.bmc_cluster)) [
    | err e ↦ (cc, returned no_requeue (some e))
    | ok body ↦
        let sent = create_block_call body in create_answer (env.http sent) (emit (call sent) cc)
  ]
