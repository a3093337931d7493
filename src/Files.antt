-- ===== src/Files.antt =====
-- The file connection (pdip/integrator/connection/types/file).
pub mod Csv
pub mod Pages
pub mod Transfer
