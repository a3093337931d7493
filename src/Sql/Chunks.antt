-- ===== src/Sql/Chunks.antt =====
-- The batches of an iterator are the rows of its query, and the single-process strategy copies
-- them all.
use mathlib.Core.List.{flatten}
use pdip.Prelude.{
  ℕ, zero, suc, ◌+◌, ◌≤◌, ◌<◌, ◌≡◌, refl, ap, ◌∙◌, sym, true, false, Option, some, List, [], ◌∷◌,
  ◌++◌, map, arith, length, length-append, take, drop, sum_of,
}
use pdip.Prelude.Results.{Result, ok}
use pdip.Parallel.Domain.{Error}
use pdip.Integration.Single.{World, execute}
use pdip.Integration.Copy.{execute-copies}
use pdip.Sql.Iterator.{
  SqlIterator, new, initialize, fetch_many, fetch, next_batch, next, add_batch, iterate,
}

module _ {Row : Type 0} where
  pub take-append-drop : (n : ℕ) (xs : List Row) → take n xs ++ drop n xs ≡ xs
  take-append-drop zero xs = refl
  take-append-drop (suc n) [] = refl
  take-append-drop (suc n) (x ∷ xs) = ap (λ l. x ∷ l) (take-append-drop n xs)

  pub length-drop_cons :
      (n : ℕ) (x : Row) (xs : List Row) → length (drop (suc n) (x ∷ xs)) ≤ length xs
  length-drop_cons zero x xs = omega arith
  length-drop_cons (suc n) x [] = omega arith
  length-drop_cons (suc n) x (y ∷ xs) = omega (arith, length-drop_cons n y xs)

  pub length-take-le : (n : ℕ) (xs : List Row) → length (take n xs) ≤ n
  length-take-le zero xs = omega arith
  length-take-le (suc n) [] = omega arith
  length-take-le (suc n) (x ∷ xs) = omega (arith, length-take-le n xs)

  -- Batches that are not empty and have at most `l` rows.
  abbrev pub AreBatches : ℕ → List (List Row) → Type 0
  AreBatches l [] = Unit
  AreBatches l (b ∷ batches) = (0 < length b) × (length b ≤ l) × AreBatches l batches

  -- From an open cursor.
  iterate_open :
      (rows left : List Row) (l fuel : ℕ) (s : SqlIterator Row)
      → s.has_cursor ≡ true
      → s.cursor ≡ some left
      → s.limit ≡ some (suc l)
      → s.is_finished ≡ false
      → length left < fuel
      → (batches : List (List Row)) × (iterate rows fuel s ≡ some (map ok batches))
        × (flatten batches ≡ left)
        × AreBatches (suc l) batches
  unfolding iterate next next_batch initialize fetch fetch_many add_batch flatten
  iterate_open rows left l zero s c q m f h = absurd (omega arith)
  iterate_open rows [] l (suc fuel) s c q m f h = ([], ground arith, refl, tt)
  iterate_open rows (x ∷ left) l (suc fuel) s c q m f h =
      let after : SqlIterator Row = record s {
        cursor = some (drop (suc l) (x ∷ left));
        offset = s.offset + length (take (suc l) (x ∷ left));
      } in
      let (batches, runs, all, sizes) =
        iterate_open rows (drop (suc l) (x ∷ left)) l fuel after c refl m f
          (omega (arith, h, length-drop_cons l x left)) in
      (
        take (suc l) (x ∷ left) ∷ batches,
        ground (arith, runs),
        ap (λ t. take (suc l) (x ∷ left) ++ t) all ∙ take-append-drop (suc l) (x ∷ left),
        (omega arith, length-take-le (suc l) (x ∷ left), sizes),
      )

  pub iterate-initialize :
      (rows : List Row) (limit : Option ℕ) (fuel : ℕ)
      → iterate rows fuel (new rows limit)
        ≡ iterate rows fuel (record (new rows limit) { has_cursor = true; cursor = some rows })
  unfolding iterate next initialize
  iterate-initialize rows limit zero = refl
  iterate-initialize rows limit (suc fuel) = refl

  sum_of-flatten :
      (batches : List (List Row)) → sum_of (λ b. length b) batches ≡ length (flatten batches)
  unfolding flatten
  sum_of-flatten [] = refl
  sum_of-flatten (b ∷ batches) =
      ap (λ n. length b + n) (sum_of-flatten batches) ∙ sym (length-append b (flatten batches))

  -- A new iterator with a limit of at least 1: with more fuel than rows, the loop ends without an
  -- error, and the batches, none of them empty or longer than the limit, are the rows in order.
  pub iterate-flatten :
      (rows : List Row) (l fuel : ℕ)
      → length rows < fuel
      → (batches : List (List Row)) × (iterate rows fuel (new rows (some (suc l)))
          ≡ some (map ok batches))
        × (flatten batches ≡ rows)
        × AreBatches (suc l) batches
  iterate-flatten rows l fuel h =
      let opened : SqlIterator Row = record (new rows (some (suc l))) {
        has_cursor = true;
        cursor = some rows;
      } in
      let (batches, runs, all, sizes) =
        iterate_open rows rows l fuel opened refl refl refl refl h in
      (batches, iterate-initialize rows (some (suc l)) fuel ∙ runs, all, sizes)

module _ {Row : Type 0} (write_data : List Row → List Row → Result Error (Unit {0}) × List Row)
    (writes : (rows table : List Row) → write_data rows table ≡ (ok tt, table ++ rows)) where
  -- The single-process strategy with a limit of at least 1 over a new `SqlIterator` on the rows of
  -- the source's query, where writes succeed by appending and the fuel exceeds the number of rows:
  -- the loop over the iterator ends, the target's table gets exactly the source's rows, in order
  -- and none twice, and the run returns their number.
  pub execute-iterate :
      (rows : List Row) (l fuel : ℕ) (w : World Row)
      → length rows < fuel
      → (outcomes : List (Result Error (List Row))) × (iterate rows fuel (new rows (some (suc l)))
          ≡ some outcomes)
        × ((execute write_data (some (suc l)) (ok outcomes) w).0 ≡ ok (length rows))
        × ((execute write_data (some (suc l)) (ok outcomes) w).1.table ≡ w.table ++ rows)
  execute-iterate rows l fuel w h =
      let (batches, runs, all, sizes) = iterate-flatten rows l fuel h in
      let (total, table) = execute-copies write_data (suc l) writes batches w in
      (
        map ok batches,
        runs,
        total ∙ ap ok (sum_of-flatten batches ∙ ap length all),
        table ∙ ap (λ t. w.table ++ t) all,
      )
