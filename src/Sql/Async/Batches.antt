-- ===== src/Sql/Async/Batches.antt =====
-- The batches of the asynchronous source adapter and those of `SqlIterator`.
use pdip.Prelude.{
  ℕ, zero, suc, ◌+◌, ◌≤◌, ◌<◌, ◌≡◌, ◌⊎◌, inl, inr, refl, ap, sym, ◌∙◌, true, false, Option, none,
  some, List, [], ◌∷◌, map, arith, length, take, drop, ltb, Bool-cases, if◌then◌else◌,
}
use pdip.Prelude.Results.{ok}
use pdip.Sql.Iterator.{
  SqlIterator, new, initialize, fetch_many, fetch_all, fetch, next_batch, next, add_batch, iterate,
}
use pdip.Sql.Chunks.{length-drop_cons, iterate-initialize}
use pdip.Sql.Async.Adapters.{range_step, batches}

module _ {Row : Type 0} where
  -- Parts of `l` rows, the last one maybe shorter.
  abbrev chunks : ℕ → ℕ → List Row → List (List Row)
  chunks zero l rows = []
  chunks (suc fuel) l [] = []
  chunks (suc fuel) l (x ∷ rows) = take l (x ∷ rows) ∷ chunks fuel l (drop l (x ∷ rows))

  chunks-fuel :
      (f g l : ℕ) (rows : List Row)
      → length rows ≤ f
      → length rows ≤ g
      → chunks f (suc l) rows ≡ chunks g (suc l) rows
  chunks-fuel zero zero l rows h k = refl
  chunks-fuel zero (suc g) l [] h k = refl
  chunks-fuel zero (suc g) l (x ∷ rows) h k = absurd (omega (arith, h))
  chunks-fuel (suc f) zero l [] h k = refl
  chunks-fuel (suc f) zero l (x ∷ rows) h k = absurd (omega (arith, k))
  chunks-fuel (suc f) (suc g) l [] h k = refl
  chunks-fuel (suc f) (suc g) l (x ∷ rows) h k =
      ap (λ t. take (suc l) (x ∷ rows) ∷ t)
        (chunks-fuel f g l (drop (suc l) (x ∷ rows)) (omega (arith, h, length-drop_cons l x rows))
          (omega (arith, k, length-drop_cons l x rows)))

  drop-nil : (n : ℕ) (rows : List Row) → length rows ≡ 0 → drop n rows ≡ rows
  drop-nil zero rows h = refl
  drop-nil (suc n) [] h = refl
  drop-nil (suc n) (x ∷ rows) h = absurd (omega (arith, h))

  drop-add : (i l : ℕ) (rows : List Row) → drop (i + l) rows ≡ drop l (drop i rows)
  drop-add zero l rows = let e : 0 + l ≡ l = omega arith in ap (λ n. drop n rows) e
  drop-add (suc i) l [] = drop-nil (suc i + l) [] refl ∙ sym (drop-nil l [] refl)
  drop-add (suc i) l (x ∷ rows) =
      let e : suc i + l ≡ suc (i + l) = omega arith in
      ap (λ n. drop n (x ∷ rows)) e ∙ drop-add i l rows

  -- What is left from the position `i` on is empty, or starts with a row.
  chunks-drop :
      (fuel i l : ℕ) (rows : List Row)
      → chunks (suc fuel) l (drop i rows) ≡ (
          if ltb i (length rows)
          then take l (drop i rows) ∷ chunks fuel l (drop l (drop i rows))
          else [])
  chunks-drop fuel zero l [] = refl
  chunks-drop fuel zero l (x ∷ rows) = ground arith
  chunks-drop fuel (suc i) l [] = ground arith
  chunks-drop fuel (suc i) l (x ∷ rows) = chunks-drop fuel i l rows ∙ ground arith

  -- The slices are the parts.
  slices-chunks :
      (fuel i l : ℕ) (rows : List Row)
      → map (λ k. take l (drop k rows)) (range_step fuel i (length rows) l)
        ≡ chunks fuel l (drop i rows)
  unfolding range_step
  slices-chunks zero i l rows = refl
  slices-chunks (suc fuel) i l rows =
      let later = slices-chunks fuel (i + l) l rows in
      let moved = ap (λ t. chunks fuel l t) (drop-add i l rows) in
      elim (Bool-cases (ltb i (length rows))) [
        | inl t ↦
            rw (t, chunks-drop fuel i l rows, t)
              (ap (λ u. take l (drop i rows) ∷ u) (later ∙ moved))
        | inr f ↦ rw (f, chunks-drop fuel i l rows, f) refl
      ]

  -- The loop over an open iterator yields the parts.
  iterate-chunks :
      (rows left : List Row) (l fuel : ℕ) (s : SqlIterator Row)
      → s.has_cursor ≡ true
      → s.cursor ≡ some left
      → s.limit ≡ some (suc l)
      → s.is_finished ≡ false
      → length left < fuel
      → iterate rows fuel s ≡ some (map ok (chunks fuel (suc l) left))
  unfolding iterate next next_batch initialize fetch fetch_many add_batch
  iterate-chunks rows left l zero s c q m f h = absurd (omega arith)
  iterate-chunks rows [] l (suc fuel) s c q m f h = ground arith
  iterate-chunks rows (x ∷ left) l (suc fuel) s c q m f h =
      let after : SqlIterator Row = record s {
        cursor = some (drop (suc l) (x ∷ left));
        offset = s.offset + length (take (suc l) (x ∷ left));
      } in
      let rest =
        iterate-chunks rows (drop (suc l) (x ∷ left)) l fuel after c refl m f
          (omega (arith, h, length-drop_cons l x left)) in
      ground (arith, rest)

  iterate_all :
      (rows : List Row) (fuel : ℕ)
      → 0 < length rows
      → length rows < fuel
      → iterate rows fuel (record (new rows none) { has_cursor = true; cursor = some rows })
        ≡ some (map ok (batches none rows))
  unfolding iterate next next_batch initialize fetch fetch_all add_batch batches
  iterate_all [] fuel p h = absurd (omega (arith, p))
  iterate_all (x ∷ rows) zero p h = absurd (omega (arith, h))
  iterate_all (x ∷ rows) (suc zero) p h = absurd (omega (arith, h))
  iterate_all (x ∷ rows) (suc (suc fuel)) p h = refl

  -- With a positive limit, or without one for a query that has rows, and with more fuel than rows,
  -- the loop over a new `SqlIterator` yields exactly the batches that the asynchronous adapter makes
  -- of the same rows, and ends without an error.
  pub iterate-batches :
      (rows : List Row) (limit : Option ℕ) (fuel : ℕ)
      → ((l : ℕ) × (limit ≡ some (suc l))) ⊎ ((limit ≡ none) × (0 < length rows))
      → length rows < fuel
      → iterate rows fuel (new rows limit) ≡ some (map ok (batches limit rows))
  unfolding batches
  iterate-batches rows limit fuel (inl (l, e)) h =
      let opened : SqlIterator Row = record (new rows (some (suc l))) {
        has_cursor = true;
        cursor = some rows;
      } in
      rw e (
        iterate-initialize rows (some (suc l)) fuel
        ∙ iterate-chunks rows rows l fuel opened refl refl refl refl h
        ∙ ap (λ t. some (map ok t))
            (chunks-fuel fuel (length rows) l rows (omega (arith, h)) (omega arith)
              ∙ sym (slices-chunks (length rows) 0 (suc l) rows)))
  iterate-batches rows limit fuel (inr (e, some_row)) h =
      rw e (iterate-initialize rows none fuel ∙ iterate_all rows fuel some_row h)
