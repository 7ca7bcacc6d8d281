-- ===== src/Plan.antt =====
-- src/plan.rs: what turns the wrapper's config into what the document asks for.
pub mod Build
pub mod Execute
pub mod Settled
