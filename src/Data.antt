-- ===== src/Data.antt =====
-- The repositories (pdip/data/repository) and the address of their database (pdip/utils/utils.py).
pub mod Repository
pub mod Provider
pub mod Address
