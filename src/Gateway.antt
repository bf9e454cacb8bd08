-- ===== src/Gateway.antt =====
-- The read-only gateway: qmtl/gateway.
pub mod Policy
pub mod Http
pub mod Auth
pub mod Acl
pub mod Errors
pub mod Endpoints
pub mod App
pub mod Consistency
mod Examples
