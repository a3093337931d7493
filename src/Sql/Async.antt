-- ===== src/Sql/Async.antt =====
-- The asynchronous SQL adapters; each `await` is a call in its place.
pub mod Dialects
pub mod Adapters
pub mod Batches
pub mod Inserts
