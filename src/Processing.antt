-- ===== src/Processing.antt =====
-- Subprocesses and the collection of their results (pdip/processing); the thread broker of the
-- parallel strategy runs the same loop.
pub mod Manager
pub mod Subprocess
pub mod Totals
pub mod Tasks
pub mod Collect
pub mod Race
pub mod Failure
