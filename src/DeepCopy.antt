-- ===== src/DeepCopy.antt =====
-- api/v1beta1/zz_generated.deepcopy.go: the copies of the API objects, on a heap.
pub mod Heap
pub mod Objects
pub mod Copy
pub mod Methods
pub mod Laws
pub mod Compose
pub mod Items
pub mod Views
pub mod Seen
pub mod Correct
pub mod Unshared
