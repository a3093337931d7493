-- ===== src/Utils.antt =====
-- The utilities (pdip/utils, pdip/io).
pub mod Strings
pub mod Modules
pub mod Managers
