-- ===== src/Security.antt =====
-- src/security.rs: the helpers that the router, the executors, the loader and the history share.
pub mod Env
pub mod Ip
pub mod Host
pub mod Sanitize
pub mod Hash
