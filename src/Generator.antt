-- ===== src/Generator.antt =====
-- `QueryGenerator` (pdip/cqrs/generator/query_generator.py): the files of a query.
pub mod Config
pub mod Templates
pub mod Specifications
pub mod Handlers
pub mod Generate
