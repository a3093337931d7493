-- ===== src/Sql/Dialects/Oracle.antt =====
-- `OracleDialect` (pdip/integrator/connection/types/sql/dialects/oracle/
-- oracle_dialect.py), less what it asks of SQLAlchemy's inspector.
use text.Mathlib.Text.{◌==◌}
use pdip.Prelude.{ℕ, ◌||◌, Option, none, some, List, [], ◌∷◌, String, map, if◌then◌else◌}
use pdip.Prelude.Results.{Result, ok, err}
use pdip.Parallel.Domain.{Error, other}
use pdip.Sql.Dialect.{◌<>◌, join, is_empty, text_of, SqlDialect}
use pdip.Sql.Dialects.{TableColumn, minus_text, column_query, indexers}

unfoldable pub mark_to_object : String → String
mark_to_object o = "\"" <> o <> "\""

unfoldable mark_name : Option String → Option String → String
unfolding mark_to_object text_of
mark_name schema table = mark_to_object (text_of schema) <> "." <> mark_to_object (text_of table)

unfoldable pub get_table_count_query : Option String → Option String → String
unfolding mark_name mark_to_object
get_table_count_query schema table =
    "SELECT COUNT(*) " <> mark_to_object "COUNT" <> " FROM " <> mark_name schema table

unfoldable pub get_count_query : String → String
unfolding mark_to_object
get_count_query query = "SELECT COUNT(*) " <> mark_to_object "COUNT" <> " FROM (" <> query <> ")"

unfoldable get_table_select_query : Option String → Option String → String → String
unfolding mark_name
get_table_select_query schema table selected_rows =
    "SELECT " <> selected_rows <> " FROM " <> mark_name schema table

unfoldable pub get_select_query : String → String
get_select_query query = "SELECT * FROM (" <> query <> ") base_query"

unfoldable pub get_paging_query : (ℕ → String) → String → ℕ → ℕ → String
unfolding minus_text
get_paging_query str query start end =
    "\n"
    <> "SELECT * FROM\n"
    <> "(\n"
    <> "    SELECT base_query.*, rownum \"row_number\"\n"
    <> "    FROM\n"
    <> "    (\n"
    <> "        "
    <> query
    <> "\n"
    <> "    ) base_query\n"
    <> "    WHERE rownum <= "
    <> str end
    <> "\n"
    <> ")\n"
    <> "WHERE \"row_number\" > "
    <> str start
    <> "\n"

unfoldable select_columns : Option (List String) → String
unfolding join mark_to_object
select_columns none = "*"
select_columns (some []) = "*"
select_columns (some (c ∷ columns)) = join "," (map mark_to_object (c ∷ columns))

unfoldable pub prepare_select_query :
    Option String → Option String → Option (List String) → Result Error String
unfolding is_empty get_table_select_query select_columns text_of
prepare_select_query schema table columns =
    if is_empty schema || is_empty table
    then err
        (other ("Source Schema and Table required. " <> text_of schema <> "." <> text_of table))
    else ok (get_table_select_query schema table (select_columns columns))

unfoldable pub get_insert_values_query : Option String → Option String → String → String
unfolding mark_name
get_insert_values_query schema table values_query =
    "insert into " <> mark_name schema table <> " values(" <> values_query <> ")"

unfoldable pub get_insert_query : Option String → Option String → String → String → String
unfolding mark_name
get_insert_query schema table columns_query values_query =
    "insert into "
    <> mark_name schema table
    <> "("
    <> columns_query
    <> ") values("
    <> values_query
    <> ")"

-- `indexer.format(index=index)`
unfoldable indexer_at : (ℕ → String) → ℕ → String
indexer_at str index = ":" <> str index

unfoldable pub prepare_insert_query :
    (ℕ → String) → Option String → Option String → ℕ → Result Error String
unfolding is_empty text_of join indexers indexer_at get_insert_values_query
prepare_insert_query str schema table source_column_count =
    if is_empty schema || is_empty table
    then err (other ("Schema and table required. " <> text_of schema <> "." <> text_of table))
    else ok (
        get_insert_values_query schema table
          (join "," (indexers (indexer_at str) 0 source_column_count)))

-- `if_exists` is the text that is given, or an empty one for None.
unfoldable pub get_create_table_query :
    Option String → Option String → List TableColumn → String → String
unfolding mark_name join column_query text_of
get_create_table_query schema table columns if_exists =
    let query =
      "CREATE TABLE "
      <> mark_name schema table
      <> " ("
      <> join ",\n" (map (column_query mark_to_object) columns)
      <> ")" in
    if if_exists == "DoNothing"
    then "declare\n" <> "v_sql LONG;\n" <> "begin\n" <> "\n" <> "v_sql:='" <> query <> "';\n"
      <> "execute immediate v_sql;\n" <> "\n" <> "EXCEPTION\n" <> "    WHEN OTHERS THEN\n"
      <> "      IF SQLCODE = -955 THEN\n" <> "        NULL; -- suppresses ORA-00955 exception\n"
      <> "      ELSE\n" <> "         RAISE;\n" <> "      END IF;\n" <> "END;\n"
    else query

unfoldable pub get_drop_table_query : Option String → Option String → String → String
unfolding mark_name text_of
get_drop_table_query schema table if_not_exists =
    let query = "DROP TABLE " <> mark_name schema table in
    if if_not_exists == "DoNothing"
    then "declare\n" <> "v_sql LONG;\n" <> "begin\n" <> "\n" <> "v_sql:='" <> query <> "';\n"
      <> "execute immediate v_sql;\n" <> "\n" <> "EXCEPTION\n" <> "    WHEN OTHERS THEN\n"
      <> "      IF SQLCODE = -942 THEN\n" <> "        NULL; -- suppresses ORA-00942 exception\n"
      <> "      ELSE\n" <> "         RAISE;\n" <> "      END IF;\n" <> "END;\n"
    else query

unfoldable pub get_truncate_table_query : Option String → Option String → String
unfolding mark_name
get_truncate_table_query schema table = "TRUNCATE TABLE " <> mark_name schema table

unfoldable pub dialect : (ℕ → String) → SqlDialect
dialect str = record {
  indexer = ":{index}";
  mark_to_object = mark_to_object;
  get_table_count_query = get_table_count_query;
  get_count_query = get_count_query;
  get_select_query = get_select_query;
  get_paging_query = get_paging_query str;
  prepare_select_query = prepare_select_query;
  get_insert_values_query = get_insert_values_query;
  get_insert_query = get_insert_query;
  get_truncate_table_query = get_truncate_table_query;
}
