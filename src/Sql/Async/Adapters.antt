-- ===== src/Sql/Async/Adapters.antt =====
-- `AsyncSqlSourceAdapter` and `AsyncSqlTargetAdapter`
-- (pdip/integrator/connection/types/sql/adapters/source/async_sql_source_adapter.py and
-- target/async_sql_target_adapter.py), with their connector and dialect.
use text.Mathlib.Text.{◌==◌}
use pdip.Prelude.{
  ℕ, zero, suc, ◌+◌, Bool, Option, none, some, List, [], ◌∷◌, String, map, length, take, drop, ltb,
  if◌then◌else◌,
}
use pdip.Prelude.Results.{Result, ok, err, ◌>>=◌, and_then}
use pdip.Parallel.Domain.{Error, other}
use pdip.Sql.Dialect.{◌<>◌, join}
use pdip.Sql.Context.{Dict, get_item, keys}
use pdip.Sql.Insert.{collect}
use pdip.Sql.Async.Dialects.{AsyncSqlDialect, quote_table, truncate_query}

-- A connector, on the world `W`.
pub record AsyncSqlConnector (W V : Type 0) : Type 0 where
  pub connect : W → Result Error (Unit {0}) × W
  pub disconnect : W → Result Error (Unit {0}) × W
  pub fetch_count : String → String → W → Result Error ℕ × W
  pub fetch_all : String → W → Result Error (List (Dict V)) × W
  pub execute : String → W → Result Error (Unit {0}) × W
  pub executemany : String → List (List V) → W → Result Error (Unit {0}) × W

-- A side of an integration: its `Sql` and the names of its columns.
pub record Connection : Type 0 where
  pub query : Option String
  pub schema : String
  pub object_name : String
  pub columns : Option (List String)

-- A row that the source yields.
pub data SourceRow (V : Type 0) : Type 0 where
  dict_row : Dict V → SourceRow V
  positional : List V → SourceRow V

-- `[f(c.Name) for c in columns]`, of columns that may be None or empty.
unfoldable pub listed : Option (List String) → List String
listed none = []
listed (some columns) = columns

-- `range(start, stop, step)` for a positive step; `stop` is enough fuel.
unfoldable pub range_step : ℕ → ℕ → ℕ → ℕ → List ℕ
range_step zero start stop step = []
range_step (suc fuel) start stop step =
    let rest = range_step fuel (start + step) stop step in
    if ltb start stop then start ∷ rest else []

-- What get_iterator makes of the fetched rows.
unfoldable pub batches : {Row : Type 0} → Option ℕ → List Row → List (List Row)
unfolding range_step
batches none [] = []
batches none (x ∷ rows) = (x ∷ rows) ∷ []
batches (some zero) [] = []
batches (some zero) (x ∷ rows) = (x ∷ rows) ∷ []
batches (some (suc l)) rows =
    map (λ i. take (suc l) (drop i rows)) (range_step (length rows) 0 (length rows) (suc l))

module _ {W V : Type 0} (connector : AsyncSqlConnector W V) where
  unfoldable pub after_disconnect :
      {A : Type 0} → Result Error A → Result Error (Unit {0}) × W → Result Error A × W
  after_disconnect r (ok u, w) = (r, w)
  after_disconnect r (err e, w) = (err e, w)

  unfoldable pub finish : {A : Type 0} → Result Error A × W → Result Error A × W
  unfolding after_disconnect
  finish (r, w) = after_disconnect r (connector.disconnect w)

  -- `try: await connector.connect(); … finally: await connector.disconnect()`
  unfoldable pub with_connection : {A : Type 0} → (W → Result Error A × W) → W → Result Error A × W
  unfolding finish
  with_connection body w = finish (and_then (connector.connect w) (λ u w'. body w'))

  module _ (dialect : AsyncSqlDialect) (source : Connection) where
    -- _select_query_for; an empty list of columns is as good as None.
    unfoldable pub column_list : List String → String
    unfolding join
    column_list [] = "*"
    column_list (c ∷ columns) = join ", " (map dialect.quote_identifier (c ∷ columns))

    unfoldable pub named_query : String
    unfolding column_list listed quote_table
    named_query =
        "SELECT "
        <> column_list (listed source.columns)
        <> " FROM "
        <> quote_table dialect source.schema source.object_name

    unfoldable pub select_query_for : String
    unfolding named_query
    select_query_for = elim source.query [
      | none ↦ named_query
      | some q ↦ if q == "" then named_query else q
    ]

    unfoldable pub get_source_data_count : W → Result Error ℕ × W
    unfolding with_connection
    get_source_data_count w =
        with_connection (connector.fetch_count source.schema source.object_name) w

    unfoldable pub get_iterator : Option ℕ → W → Result Error (List (List (Dict V))) × W
    unfolding with_connection select_query_for batches
    get_iterator limit w =
        with_connection
          (λ w'.
            and_then (connector.fetch_all select_query_for w')
              (λ rows w''. (ok (batches limit rows), w'')))
          w

    unfoldable pub get_source_data_with_paging : ℕ → ℕ → W → Result Error (List (Dict V)) × W
    unfolding with_connection select_query_for
    get_source_data_with_paging start end w =
        with_connection (connector.fetch_all (dialect.paging_clause select_query_for start end)) w

  module _ (dialect : AsyncSqlDialect) (target : Connection) where
    unfoldable pub clear_data : W → Result Error ℕ × W
    unfolding with_connection truncate_query
    clear_data w =
        with_connection
          (λ w'.
            and_then
              (connector.execute (truncate_query dialect target.schema target.object_name) w')
              (λ u w''. (ok 0, w'')))
          w

    unfoldable pub do_target_operation : Bool → W → Result Error ℕ × W
    unfolding clear_data
    do_target_operation is_target_truncate w =
        if is_target_truncate then clear_data w else (ok 0, w)

    unfoldable pub inferred_names : SourceRow V → Result Error (List String)
    inferred_names (dict_row d) = ok (keys d)
    inferred_names (positional values) = err (other "ValueError")

    -- _target_column_names, of the first row.
    unfoldable pub target_column_names : List String → SourceRow V → Result Error (List String)
    unfolding inferred_names
    target_column_names [] first = inferred_names first
    target_column_names (c ∷ columns) first = ok (c ∷ columns)

    unfoldable pub item_at : List V → ℕ → Result Error V
    item_at [] index = err (other "IndexError")
    item_at (v ∷ values) zero = ok v
    item_at (v ∷ values) (suc index) = item_at values index

    -- _extract
    unfoldable pub extract : SourceRow V → String → ℕ → Result Error V
    unfolding item_at
    extract (dict_row d) name index = get_item d name
    extract (positional values) name index = item_at values index

    -- The tuple of a row, from the column `index` on.
    unfoldable pub tuple_of : SourceRow V → ℕ → List String → Result Error (List V)
    unfolding extract
    tuple_of row index [] = ok []
    tuple_of row index (name ∷ names) =
        extract row name index
        >>= (λ v. tuple_of row (suc index) names >>= (λ values. ok (v ∷ values)))

    unfoldable pub insert_query : List String → String
    unfolding quote_table join
    insert_query names =
        "INSERT INTO "
        <> quote_table dialect target.schema target.object_name
        <> " ("
        <> join ", " (map dialect.quote_identifier names)
        <> ") VALUES ("
        <> dialect.insert_placeholders (length names)
        <> ")"

    unfoldable pub ship : List (SourceRow V) → List String → W → Result Error ℕ × W
    unfolding insert_query collect tuple_of
    ship rows names w =
        and_then (collect (λ row. tuple_of row 0 names) rows, w)
          (λ tuples w'.
            and_then (connector.executemany (insert_query names) tuples w')
              (λ u w''. (ok (length tuples), w'')))

    unfoldable pub write_data : List (SourceRow V) → W → Result Error ℕ × W
    unfolding with_connection target_column_names ship listed
    write_data [] w = (ok 0, w)
    write_data (first ∷ rest) w =
        with_connection
          (λ w'.
            and_then (target_column_names (listed target.columns) first, w')
              (λ names w''. ship (first ∷ rest) names w''))
          w
