-- ===== src/Constants.antt =====
-- The constants of controllers/bmcmachine_controller.go and controllers/closures.go that both
-- controllers use.
pub mod EventReason
pub mod Status
pub mod Annotation
use cluster_api_provider_bmc.Base.{ℕ, String, Bool, ◌||◌, ◌==◌, nat_eq}

abbrev pub event_type_normal : String
event_type_normal = "Normal"

abbrev pub event_type_warning : String
event_type_warning = "Warning"

-- `case 200, 201, 202, 204`, the same line in every `switch` over a status code.
abbrev pub is_success : ℕ → Bool
is_success code = code == 200 || code == 201 || code == 202 || code == 204
