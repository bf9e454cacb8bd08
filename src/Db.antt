-- ===== src/Db.antt =====
-- The pool of database connections: common/db.
pub mod Pool
mod Examples
