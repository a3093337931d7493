-- ===== src/Tests/Asynchronous.antt =====
-- The asynchronous adapters over a connection whose state counts the calls.
use pdip.Prelude.{ℕ, ◌+◌, ◌≡◌, refl, inl, none, some, List, [], ◌∷◌, map, arith, length}
use pdip.Prelude.Results.{ok}
use pdip.Sql.Context.{get_item}
use pdip.Sql.Insert.{prepare_insert_row, collect}
use pdip.Sql.Iterator.{new, iterate}
use pdip.Sql.Async.Dialects.{AsyncSqlDialect}
use pdip.Sql.Async.Adapters.{AsyncSqlConnector, Connection, batches, dict_row, write_data}
use pdip.Sql.Async.Batches.{iterate-batches}
use pdip.Sql.Async.Inserts.{write_data-tuples}

abbrev rows : List ℕ
rows = 1 ∷ 2 ∷ 3 ∷ []

iterate-batches_example : iterate rows 4 (new rows (some 2)) ≡ some (map ok (batches (some 2) rows))
iterate-batches_example = iterate-batches rows (some 2) 4 (inl (1, refl)) (omega arith)

abbrev connector : AsyncSqlConnector ℕ ℕ
connector = record {
  connect = λ w. (ok tt, w + 1);
  disconnect = λ w. (ok tt, w + 1);
  fetch_count = λ schema table w. (ok 0, w);
  fetch_all = λ query w. (ok [], w);
  execute = λ query w. (ok tt, w + 1);
  executemany = λ query tuples w. (ok tt, w + length tuples);
}

abbrev dialect : AsyncSqlDialect
dialect = record {
  quote_identifier = λ name. name;
  insert_placeholders = λ count. "?";
  paging_clause = λ query start end. query;
}

abbrev people : Connection
people = record { query = none; schema = "s"; object_name = "t"; columns = some ("a" ∷ []) }

write_data-tuples_example :
    write_data connector dialect people (map dict_row ((("a", 4) ∷ []) ∷ (("a", 5) ∷ []) ∷ [])) 0
    ≡ (ok 2, 4)
unfolding prepare_insert_row collect get_item
write_data-tuples_example =
    write_data-tuples connector dialect people "a" [] (("a", 4) ∷ []) ((("a", 5) ∷ []) ∷ [])
      ((4 ∷ []) ∷ (5 ∷ []) ∷ []) 0 1 3 4 (ok tt) (ok tt) refl refl refl refl refl
