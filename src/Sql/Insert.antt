-- ===== src/Sql/Insert.antt =====
-- The insertion of rows (pdip/integrator/connection/types/sql/base/sql_context.py). Python's `re.sub` and
-- `str.format` are parameters.
use text.Mathlib.Text.{◌==◌}
use pdip.Prelude.{
  ℕ, zero, suc, Bool, true, false, ◌||◌, Option, none, some, List, [], ◌∷◌, String, map,
  if◌then◌else◌,
}
use pdip.Prelude.Results.{Result, ok, err, ◌>>=◌}
use pdip.Parallel.Domain.{Error, other, type_error}
use pdip.Sql.Dialect.{◌<>◌, join, is_empty, text_of, SqlDialect}
use pdip.Sql.Context.{Dict, get_item}

-- Values that may raise, collected in order, the first exception first.
unfoldable pub collect : {A B : Type 0} → (A → Result Error B) → List A → Result Error (List B)
collect f [] = ok []
collect f (a ∷ l) = f a >>= (λ b. collect f l >>= (λ bs. ok (b ∷ bs)))

-- prepare_insert_row
unfoldable pub prepare_insert_row :
    {V : Type 0} → List (Dict V) → List String → Result Error (List (List V))
unfolding collect get_item
prepare_insert_row rows columns =
    collect (λ extracted_data. collect (λ c. get_item extracted_data c) columns) rows

-- `column_rows.index(column_row)`, of a member.
unfoldable pub index_of : List String → String → ℕ
index_of [] c = 0
index_of (x ∷ columns) c = let i = index_of columns c in if x == c then 0 else suc i

-- `sub pattern repl text` is `re.sub`, `format text index` is `text.format(index=index)`.
module _ (sub : String → String → String → String) (format : String → ℕ → String)
    (dialect : SqlDialect) where
  unfoldable pub replace_regex : String → String → String → String
  replace_regex text field indexer =
      let first = sub ("\\(:" <> field <> "\\b") ("(" <> indexer) text in
      let second = sub (":" <> field <> "\\b\\)") (indexer <> ")") first in
      sub (":" <> field <> "\\b") indexer second

  -- The loop of prepare_target_query over the rest of its columns.
  unfoldable pub replace_columns : List String → List String → String → String
  unfolding index_of replace_regex
  replace_columns column_rows [] query = query
  replace_columns column_rows (c ∷ columns) query =
      replace_columns column_rows columns
        (replace_regex query c (format dialect.indexer (index_of column_rows c)))

  unfoldable pub prepare_target_query : List String → String → String
  unfolding replace_columns
  prepare_target_query column_rows query = replace_columns column_rows column_rows query

  -- The indexers of `range(n)`, from `index` on.
  unfoldable pub indexers : ℕ → ℕ → List String
  indexers index zero = []
  indexers index (suc n) = format dialect.indexer index ∷ indexers (suc index) n

  -- _get_values_query
  unfoldable pub get_values_query : ℕ → String
  unfolding join indexers
  get_values_query source_column_count = join "," (indexers 0 source_column_count)

  -- `columns is not None and len(columns) > 0`
  unfoldable pub has_columns : Option (List String) → Bool
  has_columns none = false
  has_columns (some []) = false
  has_columns (some (c ∷ columns)) = true

  -- What stands behind the test of schema and table.
  unfoldable pub with_table :
      Option String → Option String → Result Error String → Result Error String
  unfolding is_empty text_of
  with_table schema table query =
      if is_empty schema || is_empty table
      then err (other ("Schema and table required. " <> text_of schema <> "." <> text_of table))
      else query

  unfoldable pub insert_values : Option String → Option String → ℕ → Result Error String
  unfolding with_table get_values_query
  insert_values schema table count =
      with_table schema table
        (ok (dialect.get_insert_values_query schema table (get_values_query count)))

  -- `target_columns` is iterated, None too.
  unfoldable pub insert_columns :
      Option (List String) → Option String → Option String → ℕ → Result Error String
  unfolding with_table get_values_query join
  insert_columns none schema table count = with_table schema table (err type_error)
  insert_columns (some columns) schema table count = with_table schema table (
      ok (
        dialect.get_insert_query schema table (join "," (map dialect.mark_to_object columns))
          (get_values_query count)))

  unfoldable pub get_target_query :
      Option String
      → Option (List String)
      → Option (List String)
      → Option String
      → Option String
      → ℕ
      → Result Error String
  unfolding prepare_target_query insert_values insert_columns
  get_target_query query none target_columns schema table count = insert_values schema table count
  get_target_query query (some []) target_columns schema table count =
      insert_values schema table count
  get_target_query (some query) (some (c ∷ columns)) target_columns schema table count =
      ok (prepare_target_query (c ∷ columns) query)
  get_target_query none (some (c ∷ columns)) target_columns schema table count =
      insert_columns target_columns schema table count
