-- ===== src/Sql/Source.antt =====
-- What the SQL source adapter reads.
use text.Mathlib.Text.{◌==◌}
use text.Mathlib.TextEquality.{eq_iff}
use pdip.Prelude.{ℕ, ◌≡◌, refl, true, false, some, List, [], ◌∷◌, ◌++◌, String, map, length, arith}
use pdip.Prelude.Results.{ok}
use pdip.Sql.Dialect.{is_empty, SqlDialect}
use pdip.Sql.Retry.{
  Call, Connector, Session, call, end_call, finish_call, finish_run, go_on, connect,
}
use pdip.Sql.Context.{
  Cursor, Dict, set_item, add_items, dict_zip, is_member, exclude, kept_columns, query_with,
  to_dicts, fetch_query, get_data_with_paging,
}
use pdip.Sql.Adapters.{
  SqlConnection, source_query, get_source_data_count, get_source_data_with_paging,
}
use pdip.Sql.Rows.{AreRows, eq_sym_false, or_false}

exclude-new :
    (c : String) (columns : List String)
    → is_member c columns ≡ false
    → exclude (c ∷ []) (columns ++ c ∷ []) ≡ columns
unfolding exclude is_member
exclude-new c [] m = let same : (c == c) ≡ true = (eq_iff c c).1 refl in rw same refl
exclude-new c (x ∷ columns) m =
    let (y, z) = or_false (c == x) (is_member c columns) m in
    rw (eq_sym_false c x y, exclude-new c columns z) refl

module _ {V : Type 0} where
  add_items-longer :
      (d : Dict V) (columns : List String) (row : List V) (v : V)
      → length row ≡ length columns
      → add_items d columns (row ++ v ∷ []) ≡ add_items d columns row
  unfolding add_items
  add_items-longer d [] row v h = refl
  add_items-longer d (c ∷ columns) [] v h = absurd (omega (arith, h))
  add_items-longer d (c ∷ columns) (w ∷ row) v h =
      add_items-longer (set_item c w d) columns row v (omega (arith, h))

  dict_zip-numbered :
      (columns : List String) (numbered : List (List V × V))
      → AreRows columns (map (λ p. p.0) numbered)
      → map (λ row. dict_zip columns row) (map (λ p. p.0 ++ p.1 ∷ []) numbered)
        ≡ map (λ p. dict_zip columns p.0) numbered
  unfolding dict_zip
  dict_zip-numbered columns [] h = refl
  dict_zip-numbered columns ((row, v) ∷ numbered) (e, h) =
      rw (add_items-longer [] columns row v e, dict_zip-numbered columns numbered h) refl

module _ {W V : Type 0} (connector : Connector W (List (List V))) (cursor : Cursor W V)
    (dialect : SqlDialect) where
  -- A page of the SQL source adapter, for a database that answers the dialect's paging query with
  -- rows whose last column is named `row_number`, no other column being so named, and of which no
  -- call raises: it is one dict for each of these rows, in their order, with the row's value for
  -- every column but that last one, on one connection that is made before and closed after the query.
  pub get_source_data_with_paging-numbered :
      (source : SqlConnection) (query : String) (start end : ℕ) (columns : List String)
      (numbered : List (List V × V)) (s : Session W) (w1 w2 w3 : W)
      → source_query connector cursor dialect source ≡ ok query
      → AreRows columns (map (λ p. p.0) numbered)
      → is_member "row_number" columns ≡ false
      → connector.connect s.world ≡ (ok tt, w1)
      → cursor (dialect.get_paging_query query start end) w1 ≡ (
        ok record {
          columns = columns ++ "row_number" ∷ [];
          rows = map (λ p. p.0 ++ p.1 ∷ []) numbered;
        },
        w2,
      )
      → connector.disconnect w2 ≡ (ok tt, w3)
      → get_source_data_with_paging connector cursor dialect source start end s
        ≡ some (
          ok (map (λ p. dict_zip columns p.0) numbered),
          record { world = w3; calls = (s.calls ++ Call.connects ∷ []) ++ Call.disconnects ∷ [] },
        )
  unfolding get_source_data_with_paging get_data_with_paging kept_columns fetch_query connect call
      go_on query_with to_dicts finish_run finish_call end_call
  get_source_data_with_paging-numbered source query start end columns numbered s w1 w2 w3 q shape
        new hc hq hd =
      rw
        (
          q,
          hc,
          hq,
          hd,
          exclude-new "row_number" columns new,
          dict_zip-numbered columns numbered shape,
        )
        refl

  -- With a query that is not empty, the count is that of the table: another query that is not
  -- empty gives the same outcome.
  pub get_source_data_count-any_query :
      (source : SqlConnection) (query query' : String) (s : Session W)
      → is_empty (some query) ≡ false
      → is_empty (some query') ≡ false
      → get_source_data_count connector cursor dialect (record source { query = some query }) s
        ≡ get_source_data_count connector cursor dialect (record source { query = some query' }) s
  unfolding get_source_data_count
  get_source_data_count-any_query source query query' s h h' = rw (h, h') refl
