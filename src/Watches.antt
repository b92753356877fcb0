-- ===== src/Watches.antt =====
-- What the controllers watch: the types of the API group in the scheme, and `SetupWithManager`.
pub mod Scheme
pub mod Known
pub mod Setup
pub mod Wakes
