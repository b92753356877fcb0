-- ===== src/Api.antt =====
-- The custom resources of api/v1beta1: a module for each file, and one for the metadata.
pub mod Meta
pub mod Machine
pub mod Cluster
pub mod Choices
