-- ===== src/Api/Choices/ServerPricingModel.antt =====
-- `ServerPricingModel` of api/v1beta1/bmcmachine_types.go: its constants, and the texts that its marker
-- lets the API server admit.
use cluster_api_provider_bmc.Base.{◌≡◌, refl, String, some, List, [], ◌∷◌, string_dec}
use cluster_api_provider_bmc.Api.Choices.Choose.{is_listed, choose, is_chosen, choose-is_listed}

pub data ServerPricingModel : Type 0 where
  pm_hourly : ServerPricingModel
  pm_one_month_reservation : ServerPricingModel
  pm_twelve_months_reservation : ServerPricingModel
  pm_twenty_four_months_reservation : ServerPricingModel
  pm_thirty_six_months_reservation : ServerPricingModel

unfoldable pub server_pricing_model_text : ServerPricingModel → String
server_pricing_model_text pm_hourly = "HOURLY"
server_pricing_model_text pm_one_month_reservation = "ONE_MONTH_RESERVATION"
server_pricing_model_text pm_twelve_months_reservation = "TWELVE_MONTHS_RESERVATION"
server_pricing_model_text pm_twenty_four_months_reservation = "TWENTY_FOUR_MONTHS_RESERVATION"
server_pricing_model_text pm_thirty_six_months_reservation = "THIRTY_SIX_MONTHS_RESERVATION"

abbrev pub server_pricing_model_constants : List ServerPricingModel
server_pricing_model_constants =
    pm_hourly ∷ pm_one_month_reservation ∷ pm_twelve_months_reservation
    ∷ pm_twenty_four_months_reservation ∷ pm_thirty_six_months_reservation ∷ []

-- `+kubebuilder:validation:Enum`
abbrev pub server_pricing_model_marker : List String
server_pricing_model_marker =
    "HOURLY" ∷ "ONE_MONTH_RESERVATION" ∷ "TWELVE_MONTHS_RESERVATION"
    ∷ "TWENTY_FOUR_MONTHS_RESERVATION" ∷ "THIRTY_SIX_MONTHS_RESERVATION" ∷ []

-- A text is admitted exactly if it is that of a constant.
pub server_pricing_model-admitted :
    (s : String)
    → is_listed s server_pricing_model_marker
      ≡ is_chosen (choose server_pricing_model_text server_pricing_model_constants s)
unfolding server_pricing_model_text
server_pricing_model-admitted s =
    choose-is_listed server_pricing_model_text server_pricing_model_constants s

-- A constant is found by its text.
pub server_pricing_model-found :
    (x : ServerPricingModel)
    → choose server_pricing_model_text server_pricing_model_constants (server_pricing_model_text x)
      ≡ some x
unfolding choose server_pricing_model_text string_dec
server_pricing_model-found pm_hourly = refl
server_pricing_model-found pm_one_month_reservation = refl
server_pricing_model-found pm_twelve_months_reservation = refl
server_pricing_model-found pm_twenty_four_months_reservation = refl
server_pricing_model-found pm_thirty_six_months_reservation = refl
