-- ===== src/Threading.antt =====
-- The thread pool of parallelthread
-- (pdip/integrator/integration/types/sourcetotarget/strategies/parallelthread/threading).
pub mod Worker
pub mod Broker
pub mod Refinement
pub mod Totals
