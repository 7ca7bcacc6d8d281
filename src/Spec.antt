-- ===== src/Spec.antt =====
-- src/spec.rs: the volumes of a compose document and the file that is rendered from it.
pub mod Yaml
pub mod Bounds
pub mod Volumes
pub mod Render
