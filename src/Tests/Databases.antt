-- ===== src/Tests/Databases.antt =====
-- A database whose calls count, and a table of two columns.
use pdip.Prelude.{
  ℕ, ◌+◌, ◌≡◌, refl, some, none, List, [], ◌∷◌, ◌++◌, String, map, arith, ltb, ◌==◌, if◌then◌else◌,
}
use pdip.Prelude.Results.{Result, ok, err}
use pdip.Parallel.Domain.{Error, other}
use pdip.Integration.Single as Single
use pdip.Sql.Iterator.{new, iterate}
use pdip.Sql.Chunks.{execute-iterate}
use pdip.Sql.Retry.{Call, Connector, Session, execute_many}
use pdip.Sql.Attempts.{EndsWithin, execute_many-EndsWithin}
use pdip.Sql.Recovery.{Yields, execute_many-recovers}
use pdip.Sql.Dialect.{is_empty, join, SqlDialect}
use pdip.Sql.Postgresql as Postgresql
use pdip.Sql.Context.{Table, Cursor, dict_zip, get_item, is_member, add_items, set_item}
use pdip.Sql.Insert.{collect, indexers, prepare_insert_row}
use pdip.Sql.Adapters as Sql
use pdip.Sql.Adapters.{
  SqlConnection, get_source_data, get_source_data_with_paging, get_source_data_count, source_query,
}
use pdip.Sql.Rows.{prepare_insert_row-dict_zip}
use pdip.Sql.Writes.{Each, IsTuple, write_data-inserts}
use pdip.Sql.Source.{get_source_data_with_paging-numbered}
use pdip.Tests.Tables.{rows, write_data, empty}

-- The single-process strategy over an iterator with a limit of 2.
execute-iterate_example :
    (outcomes : List (Result Error (List ℕ))) × (iterate rows 4 (new rows (some 2)) ≡ some outcomes)
    × ((Single.execute write_data (some 2) (ok outcomes) empty).0 ≡ ok 3)
    × ((Single.execute write_data (some 2) (ok outcomes) empty).1.table ≡ rows)
execute-iterate_example =
    execute-iterate write_data (λ new table. refl) rows 1 4 empty (omega arith)

-- A connection on which the first `failing` writes raise: its state counts the writes.
abbrev write_after : ℕ → ℕ → Result Error ℕ × ℕ
write_after failing w = if ltb w failing then (err (other "OperationalError"), w + 1) else (ok 7, w)

abbrev connector : ℕ → Connector ℕ (List (List ℕ))
connector failing = record {
  connect = λ w. (ok tt, w);
  disconnect = λ w. (ok tt, w);
  execute_many = λ query rows w. write_after failing w;
}

abbrev fresh : Session ℕ
fresh = record { world = 0; calls = [] }

execute_many-EndsWithin_example :
    EndsWithin
      (connector 2)
      3
      "insert"
      []
      4
      4
      1
      fresh
      (execute_many (connector 2) 3 "insert" [] fresh)
execute_many-EndsWithin_example = execute_many-EndsWithin (connector 2) 3 "insert" [] fresh

execute_many-recovers_example :
    Yields (connector 2) 3 "insert" [] (ok 7) (execute_many (connector 2) 3 "insert" [] fresh)
execute_many-recovers_example =
    execute_many-recovers (connector 2) 3 "insert" [] 2 7 fresh 0 refl
      (
        other "OperationalError",
        1,
        1,
        refl,
        refl,
        (other "OperationalError", 2, 2, refl, refl, refl),
      )
      (omega arith) (λ v. refl)

abbrev columns : List String
columns = "Id" ∷ "Age" ∷ []

abbrev records : List (List ℕ)
records = (1 ∷ 40 ∷ []) ∷ (2 ∷ 50 ∷ []) ∷ []

prepare_insert_row-dict_zip_example :
    prepare_insert_row (map (λ row. dict_zip columns row) records) columns ≡ ok records
unfolding is_member
prepare_insert_row-dict_zip_example =
    prepare_insert_row-dict_zip columns records (refl, (refl, tt)) (refl, (refl, tt))

abbrev dialect : SqlDialect
dialect = Postgresql.dialect (λ n. if n == 1 then "1" else "2")

-- One page of one row.
abbrev answer : String → Table ℕ
answer query = record { columns = columns ++ "row_number" ∷ []; rows = (2 ∷ 50 ∷ 2 ∷ []) ∷ [] }

abbrev cursor : Cursor ℕ ℕ
cursor query w = (ok (answer query), w)

abbrev people : SqlConnection
people = record {
  query = some "people";
  schema = some "public";
  object_name = some "person";
  columns = some columns;
}

get_source_data_with_paging-numbered_example :
    get_source_data_with_paging (connector 0) cursor dialect people 1 2 fresh
    ≡ some (
      ok ((("Id", 2) ∷ ("Age", 50) ∷ []) ∷ []),
      record { world = 0; calls = Call.connects ∷ Call.disconnects ∷ [] },
    )
unfolding source_query is_member dict_zip add_items set_item
get_source_data_with_paging-numbered_example =
    get_source_data_with_paging-numbered (connector 0) cursor dialect people "people" 1 2 columns
      ((2 ∷ 50 ∷ [], 2) ∷ []) fresh 0 0 0 refl (refl, tt) refl refl refl refl

abbrev target : SqlConnection
target = record people { query = none }

write_data-inserts_example :
    (Sql.write_data
        (λ p r t. t)
        (λ t k. t)
        (connector 0)
        dialect
        3
        people
        target
        ((("Id", 1) ∷ ("Age", 40) ∷ []) ∷ [])
        fresh
      ≡ execute_many
          (connector 0)
          3
          (dialect.get_insert_query
            (some "public")
            (some "person")
            (join "," (map dialect.mark_to_object columns))
            (join "," (indexers (λ p r t. t) (λ t k. t) dialect 0 2)))
          ((1 ∷ 40 ∷ []) ∷ [])
          fresh)
    × Each (IsTuple {V = ℕ} columns) ((("Id", 1) ∷ ("Age", 40) ∷ []) ∷ []) ((1 ∷ 40 ∷ []) ∷ [])
unfolding is_empty prepare_insert_row collect get_item
write_data-inserts_example =
    write_data-inserts (λ p r t. t) (λ t k. t) (connector 0) dialect 3 people target "Id" "Id"
      ("Age" ∷ []) ("Age" ∷ []) (("Id", 1) ∷ ("Age", 40) ∷ []) [] ((1 ∷ 40 ∷ []) ∷ []) fresh refl
      refl refl refl refl
