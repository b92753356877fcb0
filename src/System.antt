-- ===== src/System.antt =====
-- The two controllers together, and with the API server that keeps their objects.
pub mod Servers
pub mod Turns
pub mod Placement
pub mod Store
pub mod Abandoned
pub mod Bootstrap
