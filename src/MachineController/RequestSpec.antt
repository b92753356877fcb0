-- ===== src/MachineController/RequestSpec.antt =====
-- The object that BMC is to read a request for a server as.
use cluster_api_provider_bmc.Base.{arith, ◌≡◌, refl, ap, ◌∙◌, some, String, [], ◌∷◌}
use cluster_api_provider_bmc.Go.{ok}
use cluster_api_provider_bmc.Go.Json.Text.{codes}
use cluster_api_provider_bmc.Go.Json.Values.{text, no_member}
use cluster_api_provider_bmc.Go.Json.Read.{parse, Value, letters, fields, value_of}
use cluster_api_provider_bmc.Go.Json.Whole.{parse-print}
use cluster_api_provider_bmc.Go.Json.Tags.{list_member}
use cluster_api_provider_bmc.Go.Json.Objects.{
  given, given_all, some_text, some_list, pointed, text_member-given, list_member-given,
  pointer-pointed,
}
use cluster_api_provider_bmc.MachineController.Environment.{
  IpBlock, IpBlocksConfiguration, BmcCreateServerRequest,
}
use cluster_api_provider_bmc.MachineController.Codec.{
  json_of_ip_block, json_of_ip_blocks_configuration, json_of_network_configuration,
  json_of_cloud_init, json_of_os_configuration, json_of_request, marshal,
}

abbrev plain_text : String → Value
plain_text s = letters (codes s)

abbrev block_value : IpBlock → Value
block_value b = fields (given_all (("id", some_text b.id) ∷ []))

abbrev blocks_value : IpBlocksConfiguration → Value
blocks_value c = fields (
    given_all (
      ("configurationType", some_text c.configuration_type)
      ∷ ("ipBlocks", some_list block_value c.ip_blocks)
      ∷ []))

-- Every field is there, but for empty texts and lists; a nil pointer is there as null.
abbrev pub request_value : BmcCreateServerRequest → Value
request_value r =
    let cloud_init =
      fields (given_all (("userData", some_text r.os_configuration.cloud_init.user_data) ∷ [])) in
    let blocks = blocks_value r.network_configuration.ip_blocks_configuration in
    fields (
      given_all (
        ("hostname", some_text r.hostname)
        ∷ ("description", some_text r.description)
        ∷ ("os", some_text r.os)
        ∷ ("type", some_text r.type)
        ∷ ("location", some_text r.location)
        ∷ ("installDefaultSshKeys", some (pointed r.install_default_ssh_keys))
        ∷ ("sshKeyIds", some_list plain_text r.ssh_key_ids)
        ∷ ("networkType", some_text r.network_type)
        ∷ ("osConfiguration", some (fields (given_all (("cloudInit", some cloud_init) ∷ []))))
        ∷ (
          "networkConfiguration",
          some (fields (given_all (("ipBlocksConfiguration", some blocks) ∷ []))),
        )
        ∷ []))

block-eq : (b : IpBlock) → value_of (json_of_ip_block b) ≡ block_value b
unfolding json_of_ip_block value_of
block-eq b = ap fields (text_member-given "id" b.id no_member)

blocks-eq :
    (c : IpBlocksConfiguration) → value_of (json_of_ip_blocks_configuration c) ≡ blocks_value c
unfolding json_of_ip_blocks_configuration value_of
blocks-eq c = ap fields (
    text_member-given "configurationType" c.configuration_type
      (list_member json_of_ip_block "ipBlocks" c.ip_blocks no_member)
    ∙ ap (given "configurationType" (some_text c.configuration_type))
        (list_member-given json_of_ip_block block_value "ipBlocks" block-eq c.ip_blocks no_member))

request-eq : (r : BmcCreateServerRequest) → value_of (json_of_request r) ≡ request_value r
unfolding json_of_request value_of json_of_os_configuration json_of_network_configuration
    json_of_cloud_init
request-eq r = simp (
  text_member-given,
  list_member-given text plain_text "sshKeyIds" (λ s. refl),
  pointer-pointed,
  blocks-eq,
)

-- The text of a request is read as this object.
pub marshal-parse :
    (request : BmcCreateServerRequest) {body : String}
    → marshal request ≡ ok body
    → parse body ≡ some (request_value request)
unfolding marshal
marshal-parse request made =
    ground (arith, parse-print (json_of_request request), request-eq request)
