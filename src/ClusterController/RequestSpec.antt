-- ===== src/ClusterController/RequestSpec.antt =====
-- The object that BMC is to read a request for an address block as.
use cluster_api_provider_bmc.Base.{◌≡◌, arith, ◌<>◌, String, some, [], ◌∷◌, string_dec}
use cluster_api_provider_bmc.Go.{ok}
use cluster_api_provider_bmc.Go.Json.Text.{codes}
use cluster_api_provider_bmc.Go.Json.Read.{Value, letters, fields, parse, value_of}
use cluster_api_provider_bmc.Go.Json.Whole.{parse-print}
use cluster_api_provider_bmc.Go.Json.Objects.{given_all, some_text, text_member-given}
use cluster_api_provider_bmc.Api.Cluster.{BmcCluster}
use cluster_api_provider_bmc.ClusterController.Create.{ip_block_request}
use cluster_api_provider_bmc.ClusterController.Codec.{json_of_request, marshal}

-- A block of two addresses, in the location of the
-- cluster, with a description that names the cluster.
abbrev pub block_request_value : BmcCluster → Value
block_request_value c = fields (
    given_all (
      ("cidrBlockSize", some (letters (codes "/31")))
      ∷ ("location", some_text c.spec.location)
      ∷ (
        "description",
        some_text ("CAPI cluster for BMC " <> c.meta.namespace <> "/" <> c.meta.name),
      )
      ∷ []))

request-eq :
    (c : BmcCluster) → value_of (json_of_request (ip_block_request c)) ≡ block_request_value c
unfolding json_of_request ip_block_request value_of string_dec
request-eq c = simp text_member-given

-- The text of the request for a cluster's block is read as this object.
pub marshal-parse :
    (c : BmcCluster) {body : String}
    → marshal (ip_block_request c) ≡ ok body
    → parse body ≡ some (block_request_value c)
unfolding marshal
marshal-parse c made =
    ground (arith, parse-print (json_of_request (ip_block_request c)), request-eq c)
