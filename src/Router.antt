-- ===== src/Router.antt =====
-- src/router.rs: the HTTP surface, in parts.
pub mod Reload
pub mod Auth
pub mod Handlers
pub mod State
pub mod Serve
pub mod Layers
pub mod Pipeline
