-- ===== src/Sql/Dialects.antt =====
-- The dialects of the other databases (pdip/integrator/connection/types/sql/dialects): what they
-- share. `str` writes a number.
use pdip.Prelude.{
  ℕ, zero, suc, ◌-◌, ◌+◌, leb, Bool, true, false, List, [], ◌∷◌, String, map, if◌then◌else◌,
}
use pdip.Sql.Dialect.{◌<>◌, join}
pub mod Mysql
pub mod Mssql
pub mod Oracle
pub mod Clickhouse

-- A column of a table to create.
pub record TableColumn : Type 0 where
  pub name : String
  pub type : String
  pub nullable : Bool

-- The text of `a - b`.
unfoldable pub minus_text : (ℕ → String) → ℕ → ℕ → String
minus_text str a b = if leb b a then str (a - b) else "-" <> str (b - a)

-- The query of a column, with the name in the quotes of the dialect.
unfoldable pub column_query : (String → String) → TableColumn → String
unfolding join
column_query mark_to_object column =
    let nullable = if column.nullable then "NULL" else "" in
    join " " (mark_to_object column.name ∷ column.type ∷ nullable ∷ [])

-- `[indexer.format(index=index) for index in range(start, start + count)]`
unfoldable pub indexers : (ℕ → String) → ℕ → ℕ → List String
indexers indexer start zero = []
indexers indexer start (suc count) = indexer start ∷ indexers indexer (suc start) count
