-- ===== src/Registry.antt =====
-- The node registry: dag_manager/registry.
pub mod Links
pub mod Nodes
pub mod Callbacks
pub mod Services
pub mod Api
pub mod Client
mod Examples
mod ApiExamples
