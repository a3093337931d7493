-- ===== src/Sql/Context.antt =====
-- The queries of `SqlContext` (pdip/integrator/connection/types/sql/base/sql_context.py), over a
-- connector, its cursor and a dialect.
use text.Mathlib.Text.{◌==◌}
use pdip.Prelude.{
  ℕ, Bool, false, ◌||◌, Option, none, some, List, [], ◌∷◌, String, map, if◌then◌else◌,
}
use pdip.Prelude.Results.{Result, ok, err, ◌>>=◌}
use pdip.Parallel.Domain.{Error, other}
use pdip.Sql.Dialect.{SqlDialect}
use pdip.Sql.Retry.{Connector, Session, connect}

-- What a cursor has after `execute`: the names of its `description`, and the rows of `fetchall`.
pub record Table (V : Type 0) : Type 0 where
  pub columns : List String
  pub rows : List (List V)

-- `cursor.execute(query)` and what it leaves.
abbrev pub Cursor : Type 0 → Type 0 → Type 0
Cursor W V = String → W → Result Error (Table V) × W

-- A dict, its items in their order.
abbrev pub Dict : Type 0 → Type 0
Dict V = List (String × V)

module _ {V : Type 0} where
  -- `d[key] = value`
  unfoldable pub set_item : String → V → Dict V → Dict V
  set_item key value [] = (key, value) ∷ []
  set_item key value ((k, v) ∷ items) =
      if key == k then (k, value) ∷ items else (k, v) ∷ set_item key value items

  -- `d[key]`
  unfoldable pub get_item : Dict V → String → Result Error V
  get_item [] key = err (other "KeyError")
  get_item ((k, v) ∷ items) key = if key == k then ok v else get_item items key

  abbrev pub keys : Dict V → List String
  keys d = map (λ (item : String × V). item.0) d

  -- `dict(zip(columns, row))`, from the items that it has already.
  unfoldable pub add_items : Dict V → List String → List V → Dict V
  unfolding set_item
  add_items d [] row = d
  add_items d (c ∷ columns) [] = d
  add_items d (c ∷ columns) (v ∷ row) = add_items (set_item c v d) columns row

  unfoldable pub dict_zip : List String → List V → Dict V
  unfolding add_items
  dict_zip columns row = add_items [] columns row

-- `key in texts`
unfoldable pub is_member : String → List String → Bool
is_member key [] = false
is_member key (t ∷ texts) = (key == t) || is_member key texts

unfoldable pub exclude : List String → List String → List String
unfolding is_member
exclude excluded [] = []
exclude excluded (c ∷ columns) =
    let rest = exclude excluded columns in if is_member c excluded then rest else c ∷ rest

-- `[column[0] for column in description if column[0] not in excluded_columns]`
unfoldable pub kept_columns : Option (List String) → List String → List String
unfolding exclude
kept_columns none columns = columns
kept_columns (some excluded) columns = exclude excluded columns

module _ {W V Data : Type 0} (connector : Connector W Data) (cursor : Cursor W V)
    (dialect : SqlDialect) where
  -- A function on an open connection, decorated.
  abbrev Runs : Type 0 → Type 0
  Runs A = Session W → Option (Result Error A × Session W)

  -- `cursor.execute(query)`, and what is done with its table.
  unfoldable pub query_with :
      {A : Type 0} → (Table V → Result Error A) → String → Session W → Result Error A × Session W
  query_with f query s = let (r, w) = cursor query s.world in (r >>= f, record s { world = w })

  unfoldable pub to_dicts : Option (List String) → Table V → Result Error (List (Dict V))
  unfolding kept_columns dict_zip
  to_dicts excluded t = ok (map (λ row. dict_zip (kept_columns excluded t.columns) row) t.rows)

  unfoldable pub fetch_query : String → Option (List String) → Runs (List (Dict V))
  unfolding to_dicts query_with
  fetch_query query excluded s =
      connect connector (λ t. some (query_with (to_dicts excluded) query t)) s

  -- `datas[0][0]`
  unfoldable pub first_value : Table V → Result Error V
  first_value t = elim t.rows [
    | [] ↦ err (other "IndexError")
    | [] ∷ _ ↦ err (other "IndexError")
    | (v ∷ _) ∷ _ ↦ ok v
  ]

  unfoldable pub get_table_count : Option String → Option String → Runs V
  unfolding first_value query_with
  get_table_count schema table s =
      connect connector
        (λ t. some (query_with first_value (dialect.get_table_count_query schema table) t)) s

  unfoldable pub get_count_for_query : String → Runs V
  unfolding first_value query_with
  get_count_for_query query s =
      connect connector (λ t. some (query_with first_value (dialect.get_count_query query) t)) s

  unfoldable pub get_data_for_query : String → Runs (List (Dict V))
  unfolding fetch_query
  get_data_for_query query s = fetch_query (dialect.get_select_query query) none s

  unfoldable pub get_data_with_paging : String → ℕ → ℕ → Runs (List (Dict V))
  unfolding fetch_query
  get_data_with_paging query start end s =
      fetch_query (dialect.get_paging_query query start end) (some ("row_number" ∷ [])) s
