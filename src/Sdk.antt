-- ===== src/Sdk.antt =====
-- The SDK: the local execution engine's record of results, and the pipeline.
pub mod Value
pub mod Node
pub mod Saving
pub mod Engine
pub mod State
pub mod Topic
pub mod Parallel
pub mod History
pub mod Pipeline
mod Examples
