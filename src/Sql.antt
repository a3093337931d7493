-- ===== src/Sql.antt =====
-- The SQL connections (pdip/integrator/connection/types/sql).
pub mod Iterator
pub mod Chunks
pub mod Retry
pub mod Attempts
pub mod Recovery
pub mod Dialect
pub mod Postgresql
pub mod Context
pub mod Rows
pub mod Adapters
pub mod Writes
pub mod Insert
pub mod Source
pub mod Async
pub mod Dialects
