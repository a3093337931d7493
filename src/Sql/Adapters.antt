-- ===== src/Sql/Adapters.antt =====
-- `SqlSourceAdapter` (pdip/integrator/connection/types/sql/adapters/source/sql_source_adapter.py)
-- and `SqlTargetAdapter` (sql/adapters/target/sql_target_adapter.py), for rows that are dicts.
use pdip.Prelude.{ℕ, Option, none, some, List, [], ◌∷◌, String, length, if◌then◌else◌}
use pdip.Prelude.Results.{Result, ok, err}
use pdip.Parallel.Domain.{Error}
use pdip.Sql.Dialect.{is_empty, SqlDialect}
use pdip.Sql.Retry.{Connector, Session, connect, execute_many}
use pdip.Sql.Context.{
  Cursor, Dict, keys, get_table_count, get_count_for_query, get_data_for_query,
  get_data_with_paging,
}
use pdip.Sql.Insert.{prepare_insert_row, get_target_query}

-- What the adapters read of an integration: `Sql.Query`, `Sql.Schema` and `Sql.ObjectName` of a
-- connection, and its columns by their names.
pub record SqlConnection : Type 0 where
  pub query : Option String
  pub schema : Option String
  pub object_name : Option String
  pub columns : Option (List String)

-- A run that has raised before any call on a connector.
abbrev run_on :
    {W A : Type 0}
    → Result Error String
    → (String → Session W → Option (Result Error A × Session W))
    → Session W
    → Option (Result Error A × Session W)
run_on (ok query) f s = f query s
run_on (err e) f s = some (err e, s)

module _ {W V : Type 0} (connector : Connector W (List (List V))) (cursor : Cursor W V)
    (dialect : SqlDialect) (source : SqlConnection) where
  -- The query of an integration, or the one that selects its columns from its table.
  unfoldable pub source_query : Result Error String
  unfolding is_empty
  source_query = elim source.query [
    | none ↦ dialect.prepare_select_query source.schema source.object_name source.columns
    | some query ↦
        if is_empty (some query)
        then dialect.prepare_select_query source.schema source.object_name source.columns
        else ok query
  ]

  unfoldable pub get_source_data_count : Session W → Option (Result Error V × Session W)
  unfolding is_empty get_count_for_query get_table_count
  get_source_data_count s =
      if is_empty source.query
      then run_on (dialect.prepare_select_query source.schema source.object_name source.columns)
          (get_count_for_query connector cursor dialect) s
      else get_table_count connector cursor dialect source.schema source.object_name s

  unfoldable pub get_source_data : Session W → Option (Result Error (List (Dict V)) × Session W)
  unfolding source_query get_data_for_query
  get_source_data s = run_on source_query (get_data_for_query connector cursor dialect) s

  unfoldable pub get_source_data_with_paging :
      ℕ → ℕ → Session W → Option (Result Error (List (Dict V)) × Session W)
  unfolding source_query get_data_with_paging
  get_source_data_with_paging start end s =
      run_on source_query (λ query. get_data_with_paging connector cursor dialect query start end) s

module _ {V : Type 0} where
  -- prepare_data
  unfoldable pub prepare_data :
      SqlConnection → Dict V → List (Dict V) → Result Error (List (List V))
  unfolding prepare_insert_row
  prepare_data source first rest = elim source.columns [
    | none ↦ prepare_insert_row (first ∷ rest) (keys first)
    | some columns ↦ prepare_insert_row (first ∷ rest) columns
  ]

  -- `len(prepared_data[0])`, of rows that are not none.
  unfoldable pub column_count : List (List V) → ℕ
  column_count [] = 0
  column_count (row ∷ rows) = length row

-- The names, where there are any.
unfoldable pub names_of : Option (List String) → Option (List String)
names_of none = none
names_of (some []) = none
names_of (some (c ∷ columns)) = some (c ∷ columns)

module _ {W V : Type 0} (sub : String → String → String → String) (format : String → ℕ → String)
    (connector : Connector W (List (List V))) (dialect : SqlDialect) (retry_count : ℕ)
    (source target : SqlConnection) where
  unfoldable pub write_prepared :
      Result Error (List (List V)) → Session W → Option (Result Error ℕ × Session W)
  unfolding get_target_query names_of column_count execute_many
  write_prepared (err e) s = some (err e, s)
  write_prepared (ok rows) s =
      run_on
        (get_target_query sub format dialect target.query (names_of source.columns)
          (names_of target.columns) target.schema target.object_name (column_count rows))
        (λ query. execute_many connector retry_count query rows) s

  unfoldable pub write_data : List (Dict V) → Session W → Option (Result Error ℕ × Session W)
  unfolding write_prepared prepare_data
  write_data [] s = some (ok 0, s)
  write_data (first ∷ rest) s = write_prepared (prepare_data source first rest) s

  -- clear_data, by SqlContext.truncate_table, which executes and commits: `rowcount` of the query.
  unfoldable pub clear_data :
      (String → W → Result Error ℕ × W) → Session W → Option (Result Error ℕ × Session W)
  unfolding connect
  clear_data execute s =
      connect connector
        (λ t.
          let (r, w) =
            execute (dialect.get_truncate_table_query target.schema target.object_name) t.world in
          some (r, record t { world = w }))
        s
