-- ===== src/Plan/Settled.antt =====
-- src/plan.rs: the plan behind a plan that ran.
pub mod Texts
pub mod Mounts
pub mod Steps
pub mod Runs
pub mod Volumes
pub mod Grown
pub mod Loop
pub mod Start
pub mod Again
pub mod Example
pub mod Tests
