-- ===== src/Api/Choices/ServerOs.antt =====
-- `ServerOS` of api/v1beta1/bmcmachine_types.go: its constants, and the texts that its marker
-- lets the API server admit.
use cluster_api_provider_bmc.Base.{◌≡◌, refl, String, some, List, [], ◌∷◌, string_dec}
use cluster_api_provider_bmc.Api.Choices.Choose.{is_listed, choose, is_chosen, choose-is_listed}

pub data ServerOs : Type 0 where
  ubuntu_bionic : ServerOs
  ubuntu_focal : ServerOs
  ubuntu_jammy : ServerOs

unfoldable pub server_os_text : ServerOs → String
server_os_text ubuntu_bionic = "ubuntu/bionic"
server_os_text ubuntu_focal = "ubuntu/focal"
server_os_text ubuntu_jammy = "ubuntu/jammy"

abbrev pub server_os_constants : List ServerOs
server_os_constants = ubuntu_bionic ∷ ubuntu_focal ∷ ubuntu_jammy ∷ []

-- `+kubebuilder:validation:Enum`
abbrev pub server_os_marker : List String
server_os_marker = "ubuntu/bionic" ∷ "ubuntu/focal" ∷ "ubuntu/jammy" ∷ []

-- A text is admitted exactly if it is that of a constant.
pub server_os-admitted :
    (s : String)
    → is_listed s server_os_marker ≡ is_chosen (choose server_os_text server_os_constants s)
unfolding server_os_text
server_os-admitted s = choose-is_listed server_os_text server_os_constants s

-- A constant is found by its text.
pub server_os-found :
    (x : ServerOs) → choose server_os_text server_os_constants (server_os_text x) ≡ some x
unfolding choose server_os_text string_dec
server_os-found ubuntu_bionic = refl
server_os-found ubuntu_focal = refl
server_os-found ubuntu_jammy = refl
