-- ===== src/Json.antt =====
-- The JSON converters (pdip/json/base/base_converter.py, pdip/api/converter/request_converter.py).
pub mod Converter
pub mod Sets
pub mod Registered
pub mod Reached
pub mod Mapped
pub mod Cyclic
