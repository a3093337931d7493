-- ===== src/Sql/Writes.antt =====
-- What the SQL target adapter sends to the database.
use pdip.Prelude.{
  ℕ, suc, ◌≡◌, refl, ap, subst, false, ◌||◌, none, some, List, [], ◌∷◌, String, map, length,
}
use pdip.Prelude.Results.{Result, ok, err, ◌>>=◌}
use pdip.Parallel.Domain.{Error}
use pdip.Sql.Dialect.{join, is_empty, SqlDialect}
use pdip.Sql.Retry.{Connector, Session, execute_many}
use pdip.Sql.Context.{Dict, get_item}
use pdip.Sql.Insert.{
  collect, prepare_insert_row, indexers, get_values_query, with_table, insert_columns,
  get_target_query,
}
use pdip.Sql.Adapters.{
  SqlConnection, prepare_data, column_count, names_of, write_prepared, write_data,
}

module _ {A B : Type 0} where
  bind-ok :
      (r : Result Error A) (f : A → Result Error B) (b : B)
      → (r >>= f) ≡ ok b
      → (a : A) × (r ≡ ok a) × (f a ≡ ok b)
  bind-ok (ok a) f b h = (a, refl, h)
  bind-ok (err e) f b h = cc

-- `f` holds of each, with the value that it returned.
abbrev pub Each : {A B : Type 0} → (A → B → Type 0) → List A → List B → Type 0
Each P [] [] = Unit
Each P [] (b ∷ bs) = ⊥
Each P (a ∷ l) [] = ⊥
Each P (a ∷ l) (b ∷ bs) = P a b × Each P l bs

module _ {A B : Type 0} where
  collect-Each :
      (f : A → Result Error B) (l : List A) (bs : List B)
      → collect f l ≡ ok bs
      → Each (λ a b. f a ≡ ok b) l bs
  unfolding collect
  collect-Each f [] [] h = tt
  collect-Each f [] (b ∷ bs) h = cc
  collect-Each f (a ∷ l) bs h =
      let (b, x, y) = bind-ok (f a) (λ t. collect f l >>= (λ ts. ok (t ∷ ts))) bs h in
      let (rest, z, w) = bind-ok (collect f l) (λ ts. ok (b ∷ ts)) bs y in
      let whole : b ∷ rest ≡ bs = cc in
      subst (λ t. Each (λ u v. f u ≡ ok v) (a ∷ l) t) whole (x, collect-Each f l rest z)

  Each-length : (P : A → B → Type 0) (l : List A) (bs : List B) → Each P l bs → length bs ≡ length l
  Each-length P [] [] h = refl
  Each-length P [] (b ∷ bs) h = absurd h
  Each-length P (a ∷ l) [] h = absurd h
  Each-length P (a ∷ l) (b ∷ bs) (h, e) = ap suc (Each-length P l bs e)

  Each-map :
      (P Q : A → B → Type 0) (l : List A) (bs : List B)
      → ((a : A) (b : B) → P a b → Q a b)
      → Each P l bs
      → Each Q l bs
  Each-map P Q [] [] f h = tt
  Each-map P Q [] (b ∷ bs) f h = h
  Each-map P Q (a ∷ l) [] f h = h
  Each-map P Q (a ∷ l) (b ∷ bs) f (h, e) = (f a b h, Each-map P Q l bs f e)

module _ {V : Type 0} where
  -- The tuple of a row: the row's value of each column.
  abbrev pub IsTuple : List String → Dict V → List V → Type 0
  IsTuple columns row tuple = Each (λ c v. get_item row c ≡ ok v) columns tuple

  pub prepare_insert_row-IsTuple :
      (columns : List String) (rows : List (Dict V)) (prepared : List (List V))
      → prepare_insert_row rows columns ≡ ok prepared
      → Each (IsTuple columns) rows prepared
  unfolding prepare_insert_row
  prepare_insert_row-IsTuple columns rows prepared h =
      Each-map (λ row tuple. collect (λ c. get_item row c) columns ≡ ok tuple) (IsTuple columns)
        rows prepared (λ row tuple e. collect-Each (λ c. get_item row c) columns tuple e)
        (collect-Each (λ row. collect (λ c. get_item row c) columns) rows prepared h)

  pub prepare_insert_row-length :
      (columns : List String) (rows : List (Dict V)) (prepared : List (List V))
      → prepare_insert_row rows columns ≡ ok prepared
      → length prepared ≡ length rows
  prepare_insert_row-length columns rows prepared h =
      Each-length (IsTuple columns) rows prepared
        (prepare_insert_row-IsTuple columns rows prepared h)

module _ {W V : Type 0} (sub : String → String → String → String) (format : String → ℕ → String)
    (connector : Connector W (List (List V))) (dialect : SqlDialect) (retry_count : ℕ)
    (source target : SqlConnection) where
  -- Where the source and the target both list columns, the target has no query of its own, its
  -- schema and table are named, and every row has a value for every column of the source: the rows
  -- are written by one `execute_many` of the dialect's insertion into the target's columns, with
  -- one placeholder for each column of the source, and its data are, for each row in order, the
  -- row's values of the source's columns in order.
  pub write_data-inserts :
      (c t : String) (columns target_columns : List String) (first : Dict V) (rest : List (Dict V))
      (prepared : List (List V)) (s : Session W)
      → source.columns ≡ some (c ∷ columns)
      → target.columns ≡ some (t ∷ target_columns)
      → target.query ≡ none
      → (is_empty target.schema || is_empty target.object_name) ≡ false
      → prepare_insert_row (first ∷ rest) (c ∷ columns) ≡ ok prepared
      → (write_data sub format connector dialect retry_count source target (first ∷ rest) s
          ≡ execute_many connector retry_count
              (dialect.get_insert_query target.schema target.object_name
                (join "," (map dialect.mark_to_object (t ∷ target_columns)))
                (join "," (indexers sub format dialect 0 (length (c ∷ columns)))))
              prepared
              s)
        × Each (IsTuple (c ∷ columns)) (first ∷ rest) prepared
  unfolding write_data write_prepared prepare_data names_of get_target_query insert_columns
      with_table get_values_query column_count
  write_data-inserts c t columns target_columns first rest [] s a b q e h =
      absurd (prepare_insert_row-IsTuple (c ∷ columns) (first ∷ rest) [] h)
  write_data-inserts c t columns target_columns first rest (tuple ∷ prepared) s a b q e h =
      let tuples = prepare_insert_row-IsTuple (c ∷ columns) (first ∷ rest) (tuple ∷ prepared) h in
      let count = Each-length (λ x v. get_item first x ≡ ok v) (c ∷ columns) tuple tuples.0 in
      (rw (a, b, q, h, e, count) refl, tuples)
