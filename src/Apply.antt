-- ===== src/Apply.antt =====
-- src/ops/apply.rs: both halves of `apply` for a loaded guest, as the calls that they make.
pub mod Docker
pub mod Wrapper
pub mod Locked
pub mod Vars
