-- ===== src/BigData.antt =====
-- The big-data connections (pdip/integrator/connection/types/bigdata).
pub mod Impala
pub mod Iterator
