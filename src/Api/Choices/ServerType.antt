-- ===== src/Api/Choices/ServerType.antt =====
-- `ServerType` of api/v1beta1/bmcmachine_types.go: its constants, and the texts that its marker
-- lets the API server admit.
use cluster_api_provider_bmc.Base.{◌≡◌, refl, String, some, List, [], ◌∷◌, string_dec}
use cluster_api_provider_bmc.Api.Choices.Choose.{is_listed, choose, is_chosen, choose-is_listed}

pub data ServerType : Type 0 where
  s0_d1_small : ServerType
  s0_d1_medium : ServerType
  s1_c1_small : ServerType
  s1_c1_medium : ServerType
  s1_c2_medium : ServerType
  s1_c2_large : ServerType
  s1_e1_small : ServerType
  s1_e1_medium : ServerType
  s1_e1_large : ServerType
  s2_c1_small : ServerType
  s2_c1_medium : ServerType
  s2_c1_large : ServerType
  s2_c2_small : ServerType
  s2_c2_medium : ServerType
  s2_c2_large : ServerType
  d2_c1_medium : ServerType
  d2_c2_medium : ServerType
  d2_c3_medium : ServerType
  d2_c4_medium : ServerType
  d2_c5_medium : ServerType
  d2_c1_large : ServerType
  d2_c2_large : ServerType
  d2_c3_large : ServerType
  d2_c4_large : ServerType
  d2_c4_storage_pliops1 : ServerType
  d2_c5_large : ServerType
  d2_m1_medium : ServerType
  d2_m1_large : ServerType
  d2_m2_medium : ServerType
  d2_m2_large : ServerType
  d2_m2_xlarge : ServerType
  d1_c1_small : ServerType
  d1_c2_small : ServerType
  d1_c3_small : ServerType
  d1_c4_small : ServerType
  d1_c1_medium : ServerType
  d1_c2_medium : ServerType
  d1_c3_medium : ServerType
  d1_c4_medium : ServerType
  d1_c1_large : ServerType
  d1_c2_large : ServerType
  d1_c3_large : ServerType
  d1_c4_large : ServerType
  d1_m1_medium : ServerType
  d1_m2_medium : ServerType
  d1_m3_medium : ServerType
  d1_m4_medium : ServerType

unfoldable pub server_type_text : ServerType → String
server_type_text s0_d1_small = "s0.d1.small"
server_type_text s0_d1_medium = "s0.d1.medium"
server_type_text s1_c1_small = "s1.c1.small"
server_type_text s1_c1_medium = "s1.c1.medium"
server_type_text s1_c2_medium = "s1.c2.medium"
server_type_text s1_c2_large = "s1.c2.large"
server_type_text s1_e1_small = "s1.e1.small"
server_type_text s1_e1_medium = "s1.e1.medium"
server_type_text s1_e1_large = "s1.e1.large"
server_type_text s2_c1_small = "s2.c1.small"
server_type_text s2_c1_medium = "s2.c1.medium"
server_type_text s2_c1_large = "s2.c1.large"
server_type_text s2_c2_small = "s2.c2.small"
server_type_text s2_c2_medium = "s2.c2.medium"
server_type_text s2_c2_large = "s2.c2.large"
server_type_text d2_c1_medium = "d2.c1.medium"
server_type_text d2_c2_medium = "d2.c2.medium"
server_type_text d2_c3_medium = "d2.c3.medium"
server_type_text d2_c4_medium = "d2.c4.medium"
server_type_text d2_c5_medium = "d2.c5.medium"
server_type_text d2_c1_large = "d2.c1.large"
server_type_text d2_c2_large = "d2.c2.large"
server_type_text d2_c3_large = "d2.c3.large"
server_type_text d2_c4_large = "d2.c4.large"
server_type_text d2_c4_storage_pliops1 = "d2.c4.storage.pliops1"
server_type_text d2_c5_large = "d2.c5.large"
server_type_text d2_m1_medium = "d2.m1.medium"
server_type_text d2_m1_large = "d2.m1.large"
server_type_text d2_m2_medium = "d2.m2.medium"
server_type_text d2_m2_large = "d2.m2.large"
server_type_text d2_m2_xlarge = "d2.m2.xlarge"
server_type_text d1_c1_small = "d1.c1.small"
server_type_text d1_c2_small = "d1.c2.small"
server_type_text d1_c3_small = "d1.c3.small"
server_type_text d1_c4_small = "d1.c4.small"
server_type_text d1_c1_medium = "d1.c1.medium"
server_type_text d1_c2_medium = "d1.c2.medium"
server_type_text d1_c3_medium = "d1.c3.medium"
server_type_text d1_c4_medium = "d1.c4.medium"
server_type_text d1_c1_large = "d1.c1.large"
server_type_text d1_c2_large = "d1.c2.large"
server_type_text d1_c3_large = "d1.c3.large"
server_type_text d1_c4_large = "d1.c4.large"
server_type_text d1_m1_medium = "d1.m1.medium"
server_type_text d1_m2_medium = "d1.m2.medium"
server_type_text d1_m3_medium = "d1.m3.medium"
server_type_text d1_m4_medium = "d1.m4.medium"

abbrev pub server_type_constants : List ServerType
server_type_constants =
    s0_d1_small ∷ s0_d1_medium ∷ s1_c1_small ∷ s1_c1_medium ∷ s1_c2_medium ∷ s1_c2_large
    ∷ s1_e1_small ∷ s1_e1_medium ∷ s1_e1_large ∷ s2_c1_small ∷ s2_c1_medium ∷ s2_c1_large
    ∷ s2_c2_small ∷ s2_c2_medium ∷ s2_c2_large ∷ d2_c1_medium ∷ d2_c2_medium ∷ d2_c3_medium
    ∷ d2_c4_medium ∷ d2_c5_medium ∷ d2_c1_large ∷ d2_c2_large ∷ d2_c3_large ∷ d2_c4_large
    ∷ d2_c4_storage_pliops1 ∷ d2_c5_large ∷ d2_m1_medium ∷ d2_m1_large ∷ d2_m2_medium ∷ d2_m2_large
    ∷ d2_m2_xlarge ∷ d1_c1_small ∷ d1_c2_small ∷ d1_c3_small ∷ d1_c4_small ∷ d1_c1_medium
    ∷ d1_c2_medium ∷ d1_c3_medium ∷ d1_c4_medium ∷ d1_c1_large ∷ d1_c2_large ∷ d1_c3_large
    ∷ d1_c4_large ∷ d1_m1_medium ∷ d1_m2_medium ∷ d1_m3_medium ∷ d1_m4_medium ∷ []

-- `+kubebuilder:validation:Enum`
abbrev pub server_type_marker : List String
server_type_marker =
    "s0.d1.small" ∷ "s0.d1.medium" ∷ "s1.c1.small" ∷ "s1.c1.medium" ∷ "s1.c2.medium" ∷ "s1.c2.large"
    ∷ "s1.e1.small" ∷ "s1.e1.medium" ∷ "s1.e1.large" ∷ "s2.c1.small" ∷ "s2.c1.medium"
    ∷ "s2.c1.large" ∷ "s2.c2.small" ∷ "s2.c2.medium" ∷ "s2.c2.large" ∷ "d2.c1.medium"
    ∷ "d2.c2.medium" ∷ "d2.c3.medium" ∷ "d2.c4.medium" ∷ "d2.c5.medium" ∷ "d2.c1.large"
    ∷ "d2.c2.large" ∷ "d2.c3.large" ∷ "d2.c4.large" ∷ "d2.c4.storage.pliops1" ∷ "d2.c5.large"
    ∷ "d2.m1.medium" ∷ "d2.m1.large" ∷ "d2.m2.medium" ∷ "d2.m2.large" ∷ "d2.m2.xlarge"
    ∷ "d1.c1.small" ∷ "d1.c2.small" ∷ "d1.c3.small" ∷ "d1.c4.small" ∷ "d1.c1.medium"
    ∷ "d1.c2.medium" ∷ "d1.c3.medium" ∷ "d1.c4.medium" ∷ "d1.c1.large" ∷ "d1.c2.large"
    ∷ "d1.c3.large" ∷ "d1.c4.large" ∷ "d1.m1.medium" ∷ "d1.m2.medium" ∷ "d1.m3.medium"
    ∷ "d1.m4.medium" ∷ []

-- A text is admitted exactly if it is that of a constant.
pub server_type-admitted :
    (s : String)
    → is_listed s server_type_marker ≡ is_chosen (choose server_type_text server_type_constants s)
unfolding server_type_text
server_type-admitted s = choose-is_listed server_type_text server_type_constants s

-- A constant is found by its text.
pub server_type-found :
    (x : ServerType) → choose server_type_text server_type_constants (server_type_text x) ≡ some x
unfolding choose server_type_text string_dec
server_type-found s0_d1_small = refl
server_type-found s0_d1_medium = refl
server_type-found s1_c1_small = refl
server_type-found s1_c1_medium = refl
server_type-found s1_c2_medium = refl
server_type-found s1_c2_large = refl
server_type-found s1_e1_small = refl
server_type-found s1_e1_medium = refl
server_type-found s1_e1_large = refl
server_type-found s2_c1_small = refl
server_type-found s2_c1_medium = refl
server_type-found s2_c1_large = refl
server_type-found s2_c2_small = refl
server_type-found s2_c2_medium = refl
server_type-found s2_c2_large = refl
server_type-found d2_c1_medium = refl
server_type-found d2_c2_medium = refl
server_type-found d2_c3_medium = refl
server_type-found d2_c4_medium = refl
server_type-found d2_c5_medium = refl
server_type-found d2_c1_large = refl
server_type-found d2_c2_large = refl
server_type-found d2_c3_large = refl
server_type-found d2_c4_large = refl
server_type-found d2_c4_storage_pliops1 = refl
server_type-found d2_c5_large = refl
server_type-found d2_m1_medium = refl
server_type-found d2_m1_large = refl
server_type-found d2_m2_medium = refl
server_type-found d2_m2_large = refl
server_type-found d2_m2_xlarge = refl
server_type-found d1_c1_small = refl
server_type-found d1_c2_small = refl
server_type-found d1_c3_small = refl
server_type-found d1_c4_small = refl
server_type-found d1_c1_medium = refl
server_type-found d1_c2_medium = refl
server_type-found d1_c3_medium = refl
server_type-found d1_c4_medium = refl
server_type-found d1_c1_large = refl
server_type-found d1_c2_large = refl
server_type-found d1_c3_large = refl
server_type-found d1_c4_large = refl
server_type-found d1_m1_medium = refl
server_type-found d1_m2_medium = refl
server_type-found d1_m3_medium = refl
server_type-found d1_m4_medium = refl
