-- ===== src/MachineController.antt =====
-- The controller of BMCMachine objects, controllers/bmcmachine_controller.go with the
-- `MachineContext` of controllers/closures.go.
pub mod Environment
pub mod State
pub mod NodeRef
pub mod NodeLink
pub mod Codec
pub mod RequestSpec
pub mod Create
pub mod Synchronize
pub mod Delete
pub mod Reconcile
pub mod Frame
pub mod Calls
pub mod OneCall
pub mod Mapper
pub mod PollSpec
pub mod Refinement
pub mod Readiness
pub mod Quiet
pub mod Cleanup
pub mod Linked
pub mod Creation
pub mod Live
pub mod History
pub mod Liveness
pub mod Hostname
pub mod Persistence
pub mod Mapping
