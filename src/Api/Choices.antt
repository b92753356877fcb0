-- ===== src/Api/Choices.antt =====
-- The string types of api/v1beta1 that have a list of constants, a module for each.
pub mod Choose
pub mod NetworkType
pub mod LocationId
pub mod ServerOs
pub mod ServerType
pub mod ServerPricingModel
