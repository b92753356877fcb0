-- ===== src/Tests/MachineCreation.antt =====
-- Creations of servers, and the theorems on creations at them.
use cluster_api_provider_bmc.Base.{
  ◌≡◌, refl, arith, String, none, some, List, [], ◌∷◌, string_eq, nat_eq, string_dec,
}
use cluster_api_provider_bmc.Go.{ok, returned, requeue_after_1_min, requeue_after_2_min}
use cluster_api_provider_bmc.Go.Base64.{decode}
use cluster_api_provider_bmc.Go.Maps.{lookup, read}
use cluster_api_provider_bmc.Constants.Status
use cluster_api_provider_bmc.Api.Machine.{BmcMachine}
use cluster_api_provider_bmc.Api.Choices.Choose.{is_listed, choose, is_chosen}
use cluster_api_provider_bmc.Api.Choices.ServerType.{
  server_type_text, server_type_constants, server_type_marker, server_type-admitted,
}
use cluster_api_provider_bmc.Outside.{HttpAnswer, answered, calls}
use cluster_api_provider_bmc.MachineController.Environment.{Environment, BmcCreateServerRequest}
use cluster_api_provider_bmc.MachineController.State.{
  MachineContext, get_hostname, get_machine_id, get_data_secret_value, get_cluster_ip_allocation_id,
}
use cluster_api_provider_bmc.Go.Json.Values.{print}
use cluster_api_provider_bmc.Go.Json.Read.{parse}
use cluster_api_provider_bmc.MachineController.RequestSpec.{request_value}
use cluster_api_provider_bmc.MachineController.Codec.{json_of_request, marshal-print}
use cluster_api_provider_bmc.MachineController.Create.{
  create_server_call, new_server_request, network_request, with_ip_block, reconcile_create,
}
use cluster_api_provider_bmc.MachineController.Reconcile.{reconcile_live}
use cluster_api_provider_bmc.MachineController.Creation.{
  Sent, Made, create-posts_bootstrap, create_links, create_refused,
}
use cluster_api_provider_bmc.MachineController.Live.{next_context, live_after_forgotten}
use cluster_api_provider_bmc.Tests.MachineData.{
  cluster, bmc_cluster, reported_status, fresh, context_of, world, says,
}

abbrev down : Environment
down = world (answered 500 (ok ""))

abbrev pub as_map : List (String × String)
as_map = ("team", "a") ∷ []

abbrev pub new_machine : BmcMachine
new_machine = fresh (some as_map)

abbrev pub creation : MachineContext
creation = context_of new_machine

-- BMC makes a server, and answers by its status.
abbrev pub makes : Environment
makes = world (says "creating")

abbrev pub request_for : Environment → BmcMachine → BmcCreateServerRequest
request_for env m =
    with_ip_block env "block7" (new_server_request env (context_of m) (35 ∷ 33 ∷ []))

abbrev pub body_for : Environment → BmcMachine → String
body_for env m = print (json_of_request (request_for env m))

unfoldable pub is_sent :
    (answer : HttpAnswer) → (m : BmcMachine) → Sent (world answer) bmc_cluster (context_of m)
unfolding get_data_secret_value network_request get_cluster_ip_allocation_id string_dec read lookup
is_sent answer m = record {
  bootstrap = 35 ∷ 33 ∷ [];
  request = request_for (world answer) m;
  body = body_for (world answer) m;
  secret = refl;
  placed = refl;
  marshalled = marshal-print (request_for (world answer) m);
}

abbrev pub is_made :
    (m : BmcMachine) → Made makes (body_for makes m) (reported_status "s1" "creating")
is_made m = record { code = 200; reply = "creating"; success = refl; answer = refl; parsed = refl }

create_links_example :
    let (mc', outcome) = reconcile_create makes bmc_cluster creation in
    (get_machine_id mc'.bmc_machine ≡ "s1")
    × (mc'.bmc_machine.spec.provider_id ≡ some "bmc://servers/s1")
    × (mc'.bmc_machine.status ≡ reported_status "s1" "creating")
    × (outcome ≡ returned requeue_after_1_min none)
unfolding is_sent
create_links_example =
    create_links makes bmc_cluster creation (is_sent (says "creating") new_machine)
      (is_made new_machine) (ground arith)

abbrev conflict : Environment
conflict = world (answered 409 (ok ""))

create_refused_example :
    let (mc', outcome) = reconcile_create conflict bmc_cluster creation in
    (mc'.bmc_machine.meta ≡ new_machine.meta)
    × (mc'.bmc_machine.spec ≡ new_machine.spec)
    × (mc'.bmc_machine.status.bmc_status ≡ Status.irreconcilable)
    × (outcome ≡ returned requeue_after_2_min none)
unfolding is_sent
create_refused_example =
    create_refused conflict bmc_cluster creation (is_sent (answered 409 (ok "")) new_machine) refl
      refl

create-posts_bootstrap_example :
    let sent = is_sent (says "creating") new_machine in
    (calls (reconcile_create makes bmc_cluster creation).0.trace
      ≡ create_server_call makes sent.body ∷ [])
    × (parse sent.body ≡ some (request_value sent.request))
    × (decode sent.request.os_configuration.cloud_init.user_data ≡ some (35 ∷ 33 ∷ []))
    × (get_data_secret_value makes creation ≡ some (ok (35 ∷ 33 ∷ [])))
    × (sent.request.hostname ≡ get_hostname creation.machine)
unfolding is_sent
create-posts_bootstrap_example =
    create-posts_bootstrap makes bmc_cluster creation (is_sent (says "creating") new_machine) refl
      (omega arith)

abbrev bare : MachineContext
bare = context_of (fresh none)

live_after_forgotten_example :
    calls (reconcile_live makes cluster bmc_cluster (next_context makes bmc_cluster bare)).0.trace
    ≡ create_server_call makes
        (body_for makes (reconcile_create makes bmc_cluster bare).0.bmc_machine)
      ∷ []
unfolding is_sent
live_after_forgotten_example =
    live_after_forgotten makes makes cluster bmc_cluster bare
      (is_sent (says "creating") (fresh none)) (is_made (fresh none)) refl refl (ground arith)
      (is_sent (says "creating") (reconcile_create makes bmc_cluster bare).0.bmc_machine)

server_type-admitted_example :
    is_listed "s2.c1.medium" server_type_marker
    ≡ is_chosen (choose server_type_text server_type_constants "s2.c1.medium")
server_type-admitted_example = server_type-admitted "s2.c1.medium"
