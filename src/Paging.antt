-- ===== src/Paging.antt =====
-- Which rows a page shows: the paging of the API's queries and that of the HTML tables.
pub mod Specification
pub mod Tiling
