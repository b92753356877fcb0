-- ===== src/ClusterController/Answer.antt =====
-- The reader of BMC's answers about address blocks: `json.Unmarshal` into a BMCClusterStatus, by the
-- tags of api/v1beta1/bmccluster_types.go.
use cluster_api_provider_bmc.Base.{String, false, Option, none, some, List, ℕ, if◌then◌else◌}
use cluster_api_provider_bmc.Go.{Try, ok, err}
use cluster_api_provider_bmc.Go.Json.Read.{Value, parse}
use cluster_api_provider_bmc.Go.Json.Decode.{
  is_named, as_text, as_flag, as_pointer, stored, decode_struct,
}
use cluster_api_provider_bmc.Api.Cluster.{BmcClusterStatus}
use cluster_api_provider_bmc.ClusterController.State.{Environment}

abbrev pub zero_status : BmcClusterStatus
zero_status = record { ready = false; error_message = none; id = ""; cidr = ""; bmc_status = "" }

-- One member of the object, by the tags. A member that no tag names is passed over.
unfoldable pub store_status : List ℕ → Value → BmcClusterStatus → Option BmcClusterStatus
store_status key x s =
    if is_named "ready" key
    then stored (λ b. record s { ready = b }) (as_flag s.ready x)
    else if is_named "errorMessage" key
    then stored (λ m. record s { error_message = m }) (as_pointer x)
    else if is_named "id" key
    then stored (λ t. record s { id = t }) (as_text s.id x)
    else if is_named "cidr" key
    then stored (λ t. record s { cidr = t }) (as_text s.cidr x)
    else if is_named "status" key
    then stored (λ t. record s { bmc_status = t }) (as_text s.bmc_status x)
    else some s

unfoldable pub decode_status : String → Option BmcClusterStatus
unfolding store_status
decode_status body = elim (parse body) [
  | none ↦ none
  | some x ↦ decode_struct store_status zero_status x
]

-- `json.Unmarshal(body, &status)`, with the status that was declared before.
unfoldable pub unmarshal : Environment → String → Try BmcClusterStatus
unfolding decode_status
unmarshal env body = elim (decode_status body) [ none ↦ err (env.json_error body) | some s ↦ ok s ]
