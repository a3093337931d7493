-- ===== src/Parallel.antt =====
-- The parallel source-to-target strategies: one source reader hands out windows of rows over a
-- queue, and the target writers copy them
-- (pdip/integrator/integration/types/sourcetotarget/strategies/parallelthread and parallelold).
pub mod Domain
pub mod State
pub mod Reader
pub mod Writer
pub mod Schedule
pub mod Invariant
pub mod Outcome
pub mod Progress
pub mod Processes
pub mod Completion
pub mod Ended
pub mod Total
pub mod Race
pub mod Execute
