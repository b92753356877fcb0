-- ===== src/Tests/ClusterData.antt =====
-- A BMCCluster and what stands around it, for runs of the cluster controller.
use cluster_api_provider_bmc.Base.{String, true, false, none, some, [], ◌∷◌}
use cluster_api_provider_bmc.Go.{ok}
use cluster_api_provider_bmc.Go.Maps.{GoMap}
use cluster_api_provider_bmc.Constants.Annotation
use cluster_api_provider_bmc.Api.Cluster.{BmcCluster, BmcClusterStatus}
use cluster_api_provider_bmc.Outside.{HttpAnswer, answered}
use cluster_api_provider_bmc.ClusterController.State.{Environment, ClusterContext}
use cluster_api_provider_bmc.Go.Json.Values.{flag, text, object, Members, no_member, member, print}
use cluster_api_provider_bmc.ClusterController.AnswerRead.{status_members, before}
use cluster_api_provider_bmc.Tests.Finalizers.{on_lists}
use cluster_api_provider_bmc.Tests.MachineData.{cluster, named, lost}

abbrev pub block : String → String → BmcClusterStatus
block cidr s = record {
  ready = false;
  error_message = none;
  id = "b1";
  cidr = cidr;
  bmc_status = s;
}

-- A cluster with no VIP manager, by its annotations and its status.
abbrev pub cluster_with : GoMap → BmcClusterStatus → BmcCluster
cluster_with as' status = record {
  meta = named "capi" as' none;
  spec = record {
    location = "PHX";
    control_plane_endpoint = record { host = ""; port = 0 };
    vip_manager = "NONE";
  };
  status = status;
}

abbrev pub blank : BmcClusterStatus
blank = record (block "" "") { id = "" }

abbrev pub new_cluster : BmcCluster
new_cluster = cluster_with (some (("team", "a") ∷ [])) blank

-- A cluster that has its block and its address.
abbrev pub placed : BmcCluster
placed =
    cluster_with
      (some (
        (Annotation.bmc_cluster_ip_allocation_id, "b1")
        ∷ (Annotation.bmc_cluster_ip, "10.0.0.3")
        ∷ []))
      (record (block "10.0.0.2/31" "unassigned") { ready = true })

abbrev pub context_of : BmcCluster → ClusterContext
context_of c = record { cluster = cluster; bmc_cluster = c; trace = [] }

-- The members of BMC's answers that the controller does not know.
abbrev pub others : Members
others = member "location" (text "PHX") (member "isBringYourOwn" (flag false) no_member)

-- An address block in the words of BMC.
abbrev pub body_of : BmcClusterStatus → String
body_of status = print (object (before others (status_members status)))

-- BMC gives this answer to every call.
abbrev pub world : HttpAnswer → Environment
world answer = record {
  endpoint_url = "https://api";
  finalizers = on_lists;
  json_error = λ body. lost;
  new_request = λ r. none;
  http = λ r. answer;
  parse_ipv6 = λ s. none;
  ipv6_string = λ ip. "::";
}

abbrev pub success : BmcClusterStatus → HttpAnswer
success status = answered 201 (ok (body_of status))
