-- ===== src/MachineController/Codec.antt =====
-- The text of the request for a server, as the struct tags of controllers/bmcmachine_controller.go
-- define it. No value of the type is refused.
use cluster_api_provider_bmc.Base.{◌≡◌, refl, String}
use cluster_api_provider_bmc.Go.{Try, ok}
use cluster_api_provider_bmc.Go.Json.Values.{Json, text, object, no_member, member, print}
use cluster_api_provider_bmc.Go.Json.Tags.{text_member, list_member, json_of_pointer}
use cluster_api_provider_bmc.MachineController.Environment.{
  IpBlock, IpBlocksConfiguration, NetworkConfiguration, CloudInit, OsConfiguration,
  BmcCreateServerRequest,
}

unfoldable pub json_of_ip_block : IpBlock → Json
json_of_ip_block b = object (text_member "id" b.id no_member)

unfoldable pub json_of_ip_blocks_configuration : IpBlocksConfiguration → Json
json_of_ip_blocks_configuration c = object (
    text_member "configurationType" c.configuration_type
      (list_member json_of_ip_block "ipBlocks" c.ip_blocks no_member))

unfoldable pub json_of_network_configuration : NetworkConfiguration → Json
json_of_network_configuration c = object (
    member "ipBlocksConfiguration" (json_of_ip_blocks_configuration c.ip_blocks_configuration)
      no_member)

unfoldable pub json_of_cloud_init : CloudInit → Json
json_of_cloud_init c = object (text_member "userData" c.user_data no_member)

unfoldable pub json_of_os_configuration : OsConfiguration → Json
json_of_os_configuration c = object (member "cloudInit" (json_of_cloud_init c.cloud_init) no_member)

unfoldable pub json_of_request : BmcCreateServerRequest → Json
json_of_request r = object (
    text_member "hostname" r.hostname (
      text_member "description" r.description (
        text_member "os" r.os (
          text_member "type" r.type (
            text_member "location" r.location (
              member "installDefaultSshKeys" (json_of_pointer r.install_default_ssh_keys) (
                list_member text "sshKeyIds" r.ssh_key_ids (
                  text_member "networkType" r.network_type (
                    member "osConfiguration" (json_of_os_configuration r.os_configuration) (
                      member "networkConfiguration"
                        (json_of_network_configuration r.network_configuration) no_member))))))))))

-- `json.Marshal(request)`
unfoldable pub marshal : BmcCreateServerRequest → Try String
unfolding print
marshal request = ok (print (json_of_request request))

-- The text is never refused.
pub marshal-print :
    (request : BmcCreateServerRequest) → marshal request ≡ ok (print (json_of_request request))
unfolding marshal
marshal-print request = refl
