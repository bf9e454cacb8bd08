-- ===== src/Core.antt =====
-- The scheduling core: dag_manager/core.
pub mod Node
pub mod Graph
pub mod Ready
pub mod Queue
pub mod Worker
mod Examples
