-- ===== src/Sql/Async/Dialects.antt =====
-- `AsyncSqlDialect` and its four classes
-- (pdip/integrator/connection/types/sql/base/async_sql_dialect.py). `str` writes a number, and
-- pages are asked for with a `start` that is at most `end`.
use pdip.Prelude.{ℕ, zero, suc, ◌+◌, ◌-◌, List, [], ◌∷◌, String}
use pdip.Prelude.Results.{Result, ok, err}
use pdip.Parallel.Domain.{Error, other}
use pdip.Sql.Dialect.{◌<>◌, join}

-- ConnectorTypes
pub data ConnectorType : Type 0 where
  mssql oracle postgresql excel csv kafka mysql impala soap clickhouse sqlite : ConnectorType

pub record AsyncSqlDialect : Type 0 where
  pub quote_identifier : String → String
  pub insert_placeholders : ℕ → String
  pub paging_clause : String → ℕ → ℕ → String

unfoldable pub quote_table : AsyncSqlDialect → String → String → String
quote_table dialect schema table =
    dialect.quote_identifier schema <> "." <> dialect.quote_identifier table

unfoldable pub truncate_query : AsyncSqlDialect → String → String → String
unfolding quote_table
truncate_query dialect schema table = "TRUNCATE TABLE " <> quote_table dialect schema table

-- `f(i) for i in range(count)`, from `i` on.
unfoldable pub each_index : (ℕ → String) → ℕ → ℕ → List String
each_index f i zero = []
each_index f i (suc count) = f i ∷ each_index f (suc i) count

module _ (str : ℕ → String) where
  -- The LIMIT/OFFSET form of the base class.
  unfoldable pub limit_offset : String → ℕ → ℕ → String
  limit_offset base_query start end =
      base_query <> " LIMIT " <> str (end - start) <> " OFFSET " <> str start

  unfoldable pub offset_fetch : String → ℕ → ℕ → String
  offset_fetch base_query start end =
      base_query
      <> " OFFSET "
      <> str start
      <> " ROWS FETCH NEXT "
      <> str (end - start)
      <> " ROWS ONLY"

  unfoldable pub postgresql_dialect : AsyncSqlDialect
  unfolding limit_offset each_index join
  postgresql_dialect = record {
    quote_identifier = λ name. "\"" <> name <> "\"";
    insert_placeholders = λ count. join ", " (each_index (λ i. "$" <> str (i + 1)) 0 count);
    paging_clause = limit_offset;
  }

  unfoldable pub mysql_dialect : AsyncSqlDialect
  unfolding limit_offset each_index join
  mysql_dialect = record {
    quote_identifier = λ name. "`" <> name <> "`";
    insert_placeholders = λ count. join ", " (each_index (λ i. "%s") 0 count);
    paging_clause = limit_offset;
  }

  unfoldable pub mssql_dialect : AsyncSqlDialect
  unfolding offset_fetch each_index join
  mssql_dialect = record {
    quote_identifier = λ name. "[" <> name <> "]";
    insert_placeholders = λ count. join ", " (each_index (λ i. "?") 0 count);
    paging_clause = offset_fetch;
  }

  unfoldable pub oracle_dialect : AsyncSqlDialect
  unfolding offset_fetch each_index join
  oracle_dialect = record {
    quote_identifier = λ name. "\"" <> name <> "\"";
    insert_placeholders = λ count. join ", " (each_index (λ i. ":" <> str (i + 1)) 0 count);
    paging_clause = offset_fetch;
  }

  -- The types without an asynchronous dialect; `connector_for` of the adapters raises for the same.
  abbrev pub not_implemented : Error
  not_implemented = other "NotImplementedError"

  unfoldable pub async_dialect_for : ConnectorType → Result Error AsyncSqlDialect
  unfolding postgresql_dialect mysql_dialect mssql_dialect oracle_dialect
  async_dialect_for postgresql = ok postgresql_dialect
  async_dialect_for mysql = ok mysql_dialect
  async_dialect_for mssql = ok mssql_dialect
  async_dialect_for oracle = ok oracle_dialect
  async_dialect_for excel = err not_implemented
  async_dialect_for csv = err not_implemented
  async_dialect_for kafka = err not_implemented
  async_dialect_for impala = err not_implemented
  async_dialect_for soap = err not_implemented
  async_dialect_for clickhouse = err not_implemented
  async_dialect_for sqlite = err not_implemented
