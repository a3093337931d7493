-- ===== src/Sql/Rows.antt =====
-- Rows as dicts, and the tuples that are made of them.
use mathlib.Core.List.{append_assoc, append-nil}
use text.Mathlib.Text.{◌==◌}
use text.Mathlib.TextEquality.{eq_iff}
use pdip.Prelude.{
  ◌≡◌, refl, sym, ap, ◌∙◌, Bool, true, false, ◌||◌, List, [], ◌∷◌, ◌++◌, String, map, length, arith,
  Bool-cases, inl, inr,
}
use pdip.Prelude.Results.{ok}
use pdip.Sql.Context.{Dict, set_item, get_item, keys, add_items, dict_zip, is_member}
use pdip.Sql.Insert.{collect, prepare_insert_row}

-- No text stands twice.
abbrev pub Distinct : List String → Type 0
Distinct [] = Unit
Distinct (c ∷ columns) = (is_member c columns ≡ false) × Distinct columns

pub eq_sym_false : (a b : String) → (a == b) ≡ false → (b == a) ≡ false
eq_sym_false a b h = elim (Bool-cases (b == a)) [
  | inl t ↦
      let same : a ≡ b = sym ((eq_iff b a).0 t) in
      let yes : (a == b) ≡ true = (eq_iff a b).1 same in cc
  | inr f ↦ f
]

pub or_false : (a b : Bool) → (a || b) ≡ false → (a ≡ false) × (b ≡ false)
or_false true b h = cc
or_false false b h = (refl, h)

module _ {V : Type 0} where
  abbrev pub zip : List String → List V → Dict V
  zip [] row = []
  zip (c ∷ columns) [] = []
  zip (c ∷ columns) (v ∷ row) = (c, v) ∷ zip columns row

  set_item-new :
      (key : String) (v : V) (d : Dict V)
      → is_member key (keys d) ≡ false
      → set_item key v d ≡ d ++ (key, v) ∷ []
  unfolding set_item is_member
  set_item-new key v [] h = refl
  set_item-new key v ((k, w) ∷ d) h =
      let (x, y) = or_false (key == k) (is_member key (keys d)) h in
      rw x (ap (λ t. (k, w) ∷ t) (set_item-new key v d y))

  -- Each of `columns` is new in `d`.
  abbrev AreNew : Dict V → List String → Type 0
  AreNew d [] = Unit
  AreNew d (c ∷ columns) = (is_member c (keys d) ≡ false) × AreNew d columns

  is_member-snoc :
      (c key : String) (v : V) (d : Dict V)
      → is_member c (keys d) ≡ false
      → (c == key) ≡ false
      → is_member c (keys (d ++ (key, v) ∷ [])) ≡ false
  unfolding is_member
  is_member-snoc c key v [] h e = rw e refl
  is_member-snoc c key v ((k, w) ∷ d) h e =
      let (x, y) = or_false (c == k) (is_member c (keys d)) h in rw x (is_member-snoc c key v d y e)

  AreNew-snoc :
      (d : Dict V) (key : String) (v : V) (columns : List String)
      → AreNew d columns
      → is_member key columns ≡ false
      → AreNew (d ++ (key, v) ∷ []) columns
  unfolding is_member
  AreNew-snoc d key v [] a h = tt
  AreNew-snoc d key v (c ∷ columns) (x, a) h =
      let (y, z) = or_false (key == c) (is_member key columns) h in
      (is_member-snoc c key v d x (eq_sym_false key c y), AreNew-snoc d key v columns a z)

  add_items-zip :
      (d : Dict V) (columns : List String) (row : List V)
      → Distinct columns
      → AreNew d columns
      → add_items d columns row ≡ d ++ zip columns row
  unfolding add_items
  add_items-zip d [] row h a = sym (append-nil d)
  add_items-zip d (c ∷ columns) [] h a = sym (append-nil d)
  add_items-zip d (c ∷ columns) (v ∷ row) (h, t) (x, a) = rw (set_item-new c v d x) (
      add_items-zip (d ++ (c, v) ∷ []) columns row t (AreNew-snoc d c v columns a h)
      ∙ append_assoc d ((c, v) ∷ []) (zip columns row))

  AreNew-empty : (d : Dict V) (columns : List String) → d ≡ [] → AreNew d columns
  unfolding is_member
  AreNew-empty d [] e = tt
  AreNew-empty d (c ∷ columns) e = (rw e refl, AreNew-empty d columns e)

  pub dict_zip-zip :
      (columns : List String) (row : List V)
      → Distinct columns
      → dict_zip columns row ≡ zip columns row
  unfolding dict_zip
  dict_zip-zip columns row h = add_items-zip [] columns row h (AreNew-empty [] columns refl)

  get_item-skip :
      (c : String) (v : V) (d : Dict V) (x : String)
      → (c == x) ≡ false
      → get_item ((c, v) ∷ d) x ≡ get_item d x
  unfolding get_item
  get_item-skip c v d x h = rw (eq_sym_false c x h) refl

  get_item-first : (c : String) (v : V) (d : Dict V) → get_item ((c, v) ∷ d) c ≡ ok v
  unfolding get_item
  get_item-first c v d = let same : (c == c) ≡ true = (eq_iff c c).1 refl in rw same refl

  -- An item before the others changes nothing for other keys.
  collect-skip :
      (c : String) (v : V) (d : Dict V) (columns : List String)
      → is_member c columns ≡ false
      → collect (λ x. get_item ((c, v) ∷ d) x) columns ≡ collect (λ x. get_item d x) columns
  unfolding collect is_member
  collect-skip c v d [] h = refl
  collect-skip c v d (x ∷ columns) h =
      let (y, z) = or_false (c == x) (is_member c columns) h in
      rw (get_item-skip c v d x y, collect-skip c v d columns z) refl

  collect-zip :
      (columns : List String) (row : List V)
      → Distinct columns
      → length row ≡ length columns
      → collect (λ x. get_item (zip columns row) x) columns ≡ ok row
  unfolding collect
  collect-zip [] [] h e = refl
  collect-zip [] (v ∷ row) h e = absurd (omega (arith, e))
  collect-zip (c ∷ columns) [] h e = absurd (omega (arith, e))
  collect-zip (c ∷ columns) (v ∷ row) (h, t) e =
      rw
        (
          get_item-first c v (zip columns row),
          collect-skip c v (zip columns row) columns h,
          collect-zip columns row t (omega (arith, e)),
        )
        refl

  -- Each row has one value for each column.
  abbrev pub AreRows : List String → List (List V) → Type 0
  AreRows columns [] = Unit
  AreRows columns (row ∷ rows) = (length row ≡ length columns) × AreRows columns rows

  -- Rows that are read as dicts of distinct columns, each with a value for each column, and
  -- prepared for an insertion into the same columns come out as they were.
  pub prepare_insert_row-dict_zip :
      (columns : List String) (rows : List (List V))
      → Distinct columns
      → AreRows columns rows
      → prepare_insert_row (map (λ row. dict_zip columns row) rows) columns ≡ ok rows
  unfolding prepare_insert_row collect
  prepare_insert_row-dict_zip columns [] h r = refl
  prepare_insert_row-dict_zip columns (row ∷ rows) h (e, r) =
      rw
        (
          dict_zip-zip columns row h,
          collect-zip columns row h e,
          prepare_insert_row-dict_zip columns rows h r,
        )
        refl
