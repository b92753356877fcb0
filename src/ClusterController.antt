-- ===== src/ClusterController.antt =====
-- The controller of BMCCluster objects, controllers/bmccluster_controller.go with the
-- `ClusterContext` of controllers/closures.go.
pub mod State
pub mod Answer
pub mod AnswerRead
pub mod Codec
pub mod Create
pub mod RequestSpec
pub mod Synchronize
pub mod Delete
pub mod Reconcile
pub mod PollSpec
pub mod Refinement
pub mod Readiness
pub mod Founded
pub mod Allocation
pub mod Sequence
pub mod Cleanup
pub mod Endpoint
pub mod History
pub mod Lifetime
