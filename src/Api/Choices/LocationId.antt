-- ===== src/Api/Choices/LocationId.antt =====
-- `LocationID` of api/v1beta1/bmcmachine_types.go: its constants, and the texts that its marker
-- lets the API server admit.
use cluster_api_provider_bmc.Base.{◌≡◌, refl, String, some, List, [], ◌∷◌, string_dec}
use cluster_api_provider_bmc.Api.Choices.Choose.{is_listed, choose, is_chosen, choose-is_listed}

pub data LocationId : Type 0 where
  phoenix : LocationId
  ashburn : LocationId
  singapore : LocationId
  amsterdam : LocationId

unfoldable pub location_id_text : LocationId → String
location_id_text phoenix = "PHX"
location_id_text ashburn = "ASH"
location_id_text singapore = "SGP"
location_id_text amsterdam = "NLD"

abbrev pub location_id_constants : List LocationId
location_id_constants = phoenix ∷ ashburn ∷ singapore ∷ amsterdam ∷ []

-- `+kubebuilder:validation:Enum`
abbrev pub location_id_marker : List String
location_id_marker = "PHX" ∷ "ASH" ∷ "SGP" ∷ "NLD" ∷ []

-- A text is admitted exactly if it is that of a constant.
pub location_id-admitted :
    (s : String)
    → is_listed s location_id_marker ≡ is_chosen (choose location_id_text location_id_constants s)
unfolding location_id_text
location_id-admitted s = choose-is_listed location_id_text location_id_constants s

-- A constant is found by its text.
pub location_id-found :
    (x : LocationId) → choose location_id_text location_id_constants (location_id_text x) ≡ some x
unfolding choose location_id_text string_dec
location_id-found phoenix = refl
location_id-found ashburn = refl
location_id-found singapore = refl
location_id-found amsterdam = refl
