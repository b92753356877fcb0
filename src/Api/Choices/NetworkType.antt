-- ===== src/Api/Choices/NetworkType.antt =====
-- `NetworkType` of api/v1beta1/bmcmachine_types.go: its constants, and the texts that its marker
-- lets the API server admit.
use cluster_api_provider_bmc.Base.{◌≡◌, refl, String, some, List, [], ◌∷◌, string_dec}
use cluster_api_provider_bmc.Api.Choices.Choose.{is_listed, choose, is_chosen, choose-is_listed}

pub data NetworkType : Type 0 where
  public_and_private : NetworkType
  private_only : NetworkType
  user_defined : NetworkType

unfoldable pub network_type_text : NetworkType → String
network_type_text public_and_private = "PUBLIC_AND_PRIVATE"
network_type_text private_only = "PRIVATE_ONLY"
network_type_text user_defined = "USER_DEFINED"

abbrev pub network_type_constants : List NetworkType
network_type_constants = public_and_private ∷ private_only ∷ user_defined ∷ []

-- `+kubebuilder:validation:Enum`
abbrev pub network_type_marker : List String
network_type_marker = "PUBLIC_AND_PRIVATE" ∷ "PRIVATE_ONLY" ∷ "USER_DEFINED" ∷ []

-- A text is admitted exactly if it is that of a constant.
pub network_type-admitted :
    (s : String)
    → is_listed s network_type_marker
      ≡ is_chosen (choose network_type_text network_type_constants s)
unfolding network_type_text
network_type-admitted s = choose-is_listed network_type_text network_type_constants s

-- A constant is found by its text.
pub network_type-found :
    (x : NetworkType)
    → choose network_type_text network_type_constants (network_type_text x) ≡ some x
unfolding choose network_type_text string_dec
network_type-found public_and_private = refl
network_type-found private_only = refl
network_type-found user_defined = refl
