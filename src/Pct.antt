-- ===== src/Pct.antt =====
-- src/pct.rs: the wrapper as PVE sees it.
pub mod Mount
pub mod Ran
pub mod Files
pub mod Listing
pub mod Ready
pub mod Guest
