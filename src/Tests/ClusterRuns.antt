-- ===== src/Tests/ClusterRuns.antt =====
-- Runs of the cluster controller, and its theorems at such runs.
use cluster_api_provider_bmc.Base.{
  Bool, some, false, ◌≡◌, inr, refl, arith, true, none, [], ◌∷◌, string_eq, string_dec, nat_eq,
}
use cluster_api_provider_bmc.Go.{ok, returned, panicked, requeue_after_5_min}
use cluster_api_provider_bmc.Go.Maps.{read, lookup}
use cluster_api_provider_bmc.Go.Ip.{dotted, parse_ip, trim_suffix, scan}
use cluster_api_provider_bmc.Constants.Status
use cluster_api_provider_bmc.Api.Cluster.{BmcClusterStatus}
use cluster_api_provider_bmc.Outside.{failed, answered, calls}
use cluster_api_provider_bmc.ClusterController.State.{
  Environment, ClusterContext, get_ip, get_ip_allocation_id, has_fini,
}
use cluster_api_provider_bmc.Go.Json.Values.{print}
use cluster_api_provider_bmc.Go.Json.Read.{parse}
use cluster_api_provider_bmc.ClusterController.RequestSpec.{block_request_value}
use cluster_api_provider_bmc.ClusterController.Codec.{json_of_request, marshal-print}
use cluster_api_provider_bmc.ClusterController.Create.{
  ip_block_request, create_block_call, endpoint_ip, reconcile_create,
}
use cluster_api_provider_bmc.ClusterController.Synchronize.{get_block_call, reconcile_synchronize}
use cluster_api_provider_bmc.ClusterController.Delete.{delete_block_call, reconcile_delete}
use cluster_api_provider_bmc.ClusterController.Reconcile.{
  Lookups, with_owner, reconcile, reconcile_live, reconcile_context,
}
use cluster_api_provider_bmc.ClusterController.Refinement.{cluster_synchronize_refines}
use cluster_api_provider_bmc.ClusterController.Readiness.{
  IsServed, context-IsServed, synchronize_ready_iff,
}
use cluster_api_provider_bmc.ClusterController.Allocation.{Made}
use cluster_api_provider_bmc.ClusterController.Sequence.{
  next_context, create-posts_block, live_after_unaddressed,
}
use cluster_api_provider_bmc.ClusterController.History.{
  Turn, History, run, skip, IsSamePlace, OnlyAbout, cluster-History-OnlyAbout,
}
use cluster_api_provider_bmc.Go.Json.Text.{codes}
use cluster_api_provider_bmc.Go.Json.Decode.{is_named, is_same_name, fold_code}
use cluster_api_provider_bmc.ClusterController.Answer.{unmarshal}
use cluster_api_provider_bmc.ClusterController.AnswerRead.{AllUnknown, unmarshal-print}
use cluster_api_provider_bmc.ClusterController.Cleanup.{cluster_delete_ends}
use cluster_api_provider_bmc.ClusterController.Endpoint.{create_endpoint}
use cluster_api_provider_bmc.Tests.Finalizers.{on_lists-IsLawful}
use cluster_api_provider_bmc.Tests.MachineData.{cluster, given, lost}
use cluster_api_provider_bmc.Tests.ClusterData.{
  block, new_cluster, placed, context_of, world, success, others, body_of,
}

-- BMC makes the block 10.0.0.2/31.
abbrev first_block : BmcClusterStatus
first_block = block (dotted 10 0 0 2 "/31") "creating"

abbrev good : Environment
good = world (success first_block)

abbrev bad : Environment
bad = world (success (block "pending" "creating"))

abbrev down : Environment
down = world (answered 500 (ok ""))

abbrev cut_off : Environment
cut_off = world (failed lost)

abbrev first : ClusterContext
first = context_of new_cluster

abbrev running : ClusterContext
running = context_of placed

pub others-AllUnknown : AllUnknown others
unfolding is_named is_same_name fold_code codes
others-AllUnknown = ((refl, refl, refl, refl, refl), ((refl, refl, refl, refl, refl), tt))

abbrev pub made_in :
    (status : BmcClusterStatus) (ctx : ClusterContext) → Made (world (success status)) ctx status
made_in status ctx = record {
  body = print (json_of_request (ip_block_request ctx.bmc_cluster));
  code = 201;
  reply = body_of status;
  marshalled = marshal-print (ip_block_request ctx.bmc_cluster);
  success = refl;
  answer = refl;
  parsed = unmarshal-print (world (success status)) status others others-AllUnknown;
}

create_endpoint_example :
    let (ctx', _) = reconcile_create good first in
    (get_ip ctx'.bmc_cluster ≡ dotted 10 0 0 3 "")
    × (ctx'.bmc_cluster.spec.control_plane_endpoint.host ≡ dotted 10 0 0 3 "")
    × (ctx'.bmc_cluster.spec.control_plane_endpoint.port ≡ 6443)
    × (ctx'.bmc_cluster.status.ready ≡ true)
create_endpoint_example =
    create_endpoint good first 10 0 0 2 (made_in first_block first) refl (omega arith) (omega arith)
      (omega arith) (omega arith) refl (ground arith) refl

cluster_synchronize_refines_example :
    let (ctx', outcome) = reconcile_synchronize down running in
    (ctx'.bmc_cluster.status.bmc_status ≡ Status.stale)
    × (outcome ≡ returned requeue_after_5_min none)
    × (calls ctx'.trace ≡ get_block_call down (get_ip_allocation_id placed) ∷ [])
    × (ctx'.bmc_cluster.meta ≡ placed.meta)
    × (ctx'.bmc_cluster.spec ≡ placed.spec)
    × (ctx'.cluster ≡ cluster)
cluster_synchronize_refines_example = cluster_synchronize_refines down running refl

context-IsServed_example : IsServed (reconcile_context good running).0.bmc_cluster
context-IsServed_example = context-IsServed good running (inr refl)

synchronize_ready_iff_example :
    (reconcile_synchronize good running).0.bmc_cluster.status.ready ≡ true
synchronize_ready_iff_example = synchronize_ready_iff good running

abbrev lookups_with : Bool → Lookups
lookups_with paused = record {
  get_bmc_cluster = λ namespace name. ok placed;
  get_owner_cluster = λ c. ok (some cluster);
  is_paused = λ cluster' c. paused;
  ignore_not_found = λ e. some e;
}

abbrev turn : Bool → Turn
turn paused = record {
  env = down;
  lookups = lookups_with paused;
  namespace = "default";
  name = "capi";
}

-- A poll, and a run that a pause stops.
cluster-History-OnlyAbout_example :
    IsSamePlace placed (reconcile_context down running).0.bmc_cluster
    × OnlyAbout (get_ip_allocation_id placed) (turn true ∷ turn false ∷ [])
unfolding reconcile with_owner get_ip string_dec read lookup
cluster-History-OnlyAbout_example =
    cluster-History-OnlyAbout (skip (turn true) (run (turn false) History.start refl refl) refl)
      (given "10.0.0.3" refl)

live_after_unaddressed_example :
    calls (reconcile_live good (next_context bad first)).0.trace
    ≡ create_block_call good
        (print (json_of_request (ip_block_request (next_context bad first).bmc_cluster)))
      ∷ []
unfolding endpoint_ip string_dec trim_suffix parse_ip scan get_ip read lookup
live_after_unaddressed_example =
    live_after_unaddressed bad good first (made_in (block "pending" "creating") first) refl
      (ground arith) refl (marshal-print (ip_block_request (next_context bad first).bmc_cluster))

create-posts_block_example :
    let request = ip_block_request first.bmc_cluster in
    let body = print (json_of_request request) in
    (calls (reconcile_create good first).0.trace ≡ create_block_call good body ∷ [])
    × (parse body ≡ some (block_request_value first.bmc_cluster))
create-posts_block_example = create-posts_block good first refl

cluster_delete_ends_example :
    let (ctx', outcome) = reconcile_delete cut_off running in
    (calls ctx'.trace ≡ delete_block_call cut_off (get_ip_allocation_id placed) ∷ [])
    × (outcome ≡ panicked)
    × (has_fini cut_off ctx'.bmc_cluster ≡ has_fini cut_off placed)
    × (ctx'.bmc_cluster.status ≡ placed.status)
unfolding string_dec
cluster_delete_ends_example = cluster_delete_ends cut_off running on_lists-IsLawful refl refl

unmarshal-print_example : unmarshal good (body_of first_block) ≡ ok first_block
unmarshal-print_example = unmarshal-print good first_block others others-AllUnknown
