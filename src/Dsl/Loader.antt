-- ===== src/Dsl/Loader.antt =====
-- src/dsl/loader.rs: from YAML files to jobs.
pub mod Raw
pub mod Headers
pub mod Spec
pub mod Walk
pub mod Group
