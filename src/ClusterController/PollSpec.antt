-- ===== src/ClusterController/PollSpec.antt =====
-- What one poll of an address block should do, as a table over what the controller can observe.
use cluster_api_provider_bmc.Base.{
  ℕ, String, ◌<>◌, Option, none, some, ◌==◌, nat_eq, string_eq, if◌then◌else◌,
}
use cluster_api_provider_bmc.Go.{
  GoError, ok, err, CtrlResult, no_requeue, requeue_after_2_min, requeue_after_5_min,
}
use cluster_api_provider_bmc.Go.Format.{itoa}
use cluster_api_provider_bmc.Constants.{is_success}
use cluster_api_provider_bmc.Constants.Status
use cluster_api_provider_bmc.Api.Cluster.{BmcClusterStatus}
use cluster_api_provider_bmc.Outside.{HttpAnswer, failed, answered}
use cluster_api_provider_bmc.ClusterController.Answer.{unmarshal}
use cluster_api_provider_bmc.ClusterController.State.{
  Environment, ClusterContext, get_ip_allocation_id,
}
use cluster_api_provider_bmc.ClusterController.Synchronize.{get_block_call}

-- No answer, a refusal of the request, a denied resource, a service that is down, a code that the
-- API does not document, a body that is no status, or a status.
pub data Observation : Type 0 where
  unreachable : GoError → Observation
  refused : Observation
  denied : Observation
  unavailable : Observation
  unknown : ℕ → Observation
  garbled : GoError → Observation
  reported : BmcClusterStatus → Observation

abbrev body_observed : Environment → String → Observation
body_observed env body = elim (unmarshal env body) [ err e ↦ garbled e | ok ss ↦ reported ss ]

abbrev code_observed : Environment → ℕ → String → Observation
code_observed env code body =
    if is_success code
    then body_observed env body
    else if code == 403
    then denied
    else if code == 500
    then unavailable
    else if code == 400
    then refused
    else if code == 401
    then refused
    else unknown code

abbrev observed : Environment → HttpAnswer → Observation
observed env (failed e) = unreachable e
observed env (answered code (err e)) = unreachable e
observed env (answered code (ok body)) = code_observed env code body

-- The BMC status after an observation, from the one before it.
abbrev pub status_after : Observation → String → String
status_after (unreachable e) old = Status.stale
status_after refused old = Status.irreconcilable
status_after denied old = Status.orphaned
status_after unavailable old = Status.stale
status_after (unknown code) old = old
status_after (garbled e) old = Status.stale
status_after (reported ss) old = ss.bmc_status

-- When to look again, and the error that the controller runtime is told.
abbrev pub wait_after : Observation → CtrlResult
wait_after (unreachable e) = requeue_after_2_min
wait_after (garbled e) = requeue_after_2_min
wait_after denied = no_requeue
wait_after (unknown code) = no_requeue
wait_after _ = requeue_after_5_min

abbrev pub error_after : Observation → Option GoError
error_after (unreachable e) = some e
error_after (garbled e) = some e
error_after (unknown code) =
    some (record { message = "Unexpected response during server poll: " <> itoa code })
error_after _ = none

-- The observations that mark the cluster as failed.
abbrev pub IsFailure : Observation → Type 0
IsFailure (unknown code) = ⊥
IsFailure (reported ss) = ⊥
IsFailure _ = Unit

-- What a poll of this cluster sees, in this environment.
abbrev pub observation : Environment → ClusterContext → Observation
observation env cc =
    observed env (env.http (get_block_call env (get_ip_allocation_id cc.bmc_cluster)))
