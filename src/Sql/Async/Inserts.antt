-- ===== src/Sql/Async/Inserts.antt =====
-- What the asynchronous target adapter writes, beside the synchronous one.
use pdip.Prelude.{ℕ, suc, ◌≡◌, refl, ◌∙◌, some, List, [], ◌∷◌, String, map, length}
use pdip.Prelude.Results.{Result, ok, err, ◌>>=◌, and_then}
use pdip.Parallel.Domain.{Error}
use pdip.Sql.Dialect.{◌<>◌, join}
use pdip.Sql.Context.{Dict, get_item}
use pdip.Sql.Insert.{collect, prepare_insert_row}
use pdip.Sql.Writes.{prepare_insert_row-length}
use pdip.Sql.Async.Dialects.{AsyncSqlDialect, quote_table}
use pdip.Sql.Async.Adapters.{
  AsyncSqlConnector, Connection, dict_row, listed, with_connection, finish, after_disconnect,
  extract, tuple_of, target_column_names, insert_query, ship, write_data,
}

module _ {W V : Type 0} (connector : AsyncSqlConnector W V) (dialect : AsyncSqlDialect)
    (target : Connection) where
  tuple_of-dict_row :
      (d : Dict V) (index : ℕ) (names : List String)
      → tuple_of connector dialect target (dict_row d) index names
        ≡ collect (λ c. get_item d c) names
  unfolding tuple_of extract collect
  tuple_of-dict_row d index [] = refl
  tuple_of-dict_row d index (c ∷ names) = rw (tuple_of-dict_row d (suc index) names) refl

  tuples-dict_row :
      (rows : List (Dict V)) (names : List String)
      → collect (λ row. tuple_of connector dialect target row 0 names) (map dict_row rows)
        ≡ prepare_insert_row rows names
  unfolding collect prepare_insert_row
  tuples-dict_row [] names = refl
  tuples-dict_row (d ∷ rows) names =
      rw (tuple_of-dict_row d 0 names, tuples-dict_row rows names) refl

  -- Rows that are dicts with a value for every column that the target lists, where the connector
  -- connects: one `executemany` follows, of an INSERT into the quoted table with the quoted columns
  -- and as many placeholders as there are columns, with, for each row in order, the tuple that the
  -- synchronous adapter prepares for the same columns; then one `disconnect`, whatever `executemany`
  -- did. The result is the number of rows, unless one of the two raises; the exception of
  -- `disconnect` goes before that of `executemany`.
  pub write_data-tuples :
      (c : String) (columns : List String) (first : Dict V) (rest : List (Dict V))
      (prepared : List (List V)) (w w1 w2 w3 : W) (executed closed : Result Error (Unit {0}))
      → target.columns ≡ some (c ∷ columns)
      → prepare_insert_row (first ∷ rest) (c ∷ columns) ≡ ok prepared
      → connector.connect w ≡ (ok tt, w1)
      → connector.executemany
          ("INSERT INTO "
            <> (dialect.quote_identifier target.schema
                <> "."
                <> dialect.quote_identifier target.object_name)
            <> " ("
            <> join ", " (map dialect.quote_identifier (c ∷ columns))
            <> ") VALUES ("
            <> dialect.insert_placeholders (suc (length columns))
            <> ")")
          prepared
          w1
        ≡ (executed, w2)
      → connector.disconnect w2 ≡ (closed, w3)
      → write_data connector dialect target (map dict_row (first ∷ rest)) w
        ≡ (closed >>= (λ _. executed >>= (λ _. ok (suc (length rest)))), w3)
  unfolding write_data target_column_names ship listed and_then with_connection finish
      after_disconnect insert_query quote_table
  write_data-tuples c columns first rest prepared w w1 w2 w3 (ok u) (ok v) e h hc hx hd =
      let same = tuples-dict_row (first ∷ rest) (c ∷ columns) ∙ h in
      rw (hc, e, same, hx, hd, prepare_insert_row-length (c ∷ columns) (first ∷ rest) prepared h)
        refl
  write_data-tuples c columns first rest prepared w w1 w2 w3 (err x) (ok v) e h hc hx hd =
      let same = tuples-dict_row (first ∷ rest) (c ∷ columns) ∙ h in rw (hc, e, same, hx, hd) refl
  write_data-tuples c columns first rest prepared w w1 w2 w3 (ok u) (err y) e h hc hx hd =
      let same = tuples-dict_row (first ∷ rest) (c ∷ columns) ∙ h in rw (hc, e, same, hx, hd) refl
  write_data-tuples c columns first rest prepared w w1 w2 w3 (err x) (err y) e h hc hx hd =
      let same = tuples-dict_row (first ∷ rest) (c ∷ columns) ∙ h in rw (hc, e, same, hx, hd) refl
