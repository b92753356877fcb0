-- ===== src/ClusterController/Codec.antt =====
-- The text of the request for an address block, as the struct tags of
-- controllers/bmccluster_controller.go define it. No value of the type is refused.
use cluster_api_provider_bmc.Base.{◌≡◌, refl, String}
use cluster_api_provider_bmc.Go.{Try, ok}
use cluster_api_provider_bmc.Go.Json.Values.{Json, object, no_member, print}
use cluster_api_provider_bmc.Go.Json.Tags.{text_member}
use cluster_api_provider_bmc.ClusterController.State.{IpBlockRequest}

unfoldable pub json_of_request : IpBlockRequest → Json
json_of_request r = object (
    text_member "cidrBlockSize" r.cidr_block_size
      (text_member "location" r.location (text_member "description" r.description no_member)))

-- `json.Marshal(IPBlockRequest{...})`
unfoldable pub marshal : IpBlockRequest → Try String
unfolding print
marshal request = ok (print (json_of_request request))

-- The text is never refused.
pub marshal-print :
    (request : IpBlockRequest) → marshal request ≡ ok (print (json_of_request request))
unfolding marshal
marshal-print request = refl
