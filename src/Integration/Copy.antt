-- ===== src/Integration/Copy.antt =====
-- What the single-process strategy copies.
use mathlib.Core.List.{append_assoc, append-nil, flatten}
use pdip.Prelude.{
  ℕ, ◌+◌, ◌≡◌, refl, ap, ◌∙◌, sym, none, some, List, [], ◌∷◌, ◌++◌, map, arith, length, sum_of,
}
use pdip.Prelude.Results.{Result, ok, err}
use pdip.Parallel.Domain.{Error, type_error}
use pdip.Integration.Single.{
  readed_from_db, process_finished, Cursor, World, advance, write_batch, end_round, round, go_on,
  copy, publish_error, open_iterator, execute,
}

module _ {Row : Type 0} (write_data : List Row → List Row → Result Error (Unit {0}) × List Row)
    (l : ℕ)
    (writes : (rows table : List Row) → write_data rows table ≡ (ok tt, table ++ rows)) where
  abbrev next_cursor : List Row → Cursor → ℕ → Cursor
  next_cursor b c e = record {
    task_id = c.task_id + 1;
    start = c.start + l;
    end = some (e + l);
    data_count = c.data_count + length b;
  }

  abbrev next_world : List Row → Cursor → World Row → World Row
  next_world b c w = record {
    table = w.table ++ b;
    channel =
        (w.channel ++ readed_from_db (c.task_id + 1) c.start c.end ∷ [])
        ++ process_finished (c.task_id + 1) c.start c.end ∷ [];
  }

  round_lem :
      (b : List Row) (c : Cursor) (w : World Row) (e : ℕ)
      → c.end ≡ some e
      → round write_data (some l) b c w ≡ (ok (next_cursor b c e), next_world b c w)
  unfolding round end_round write_batch advance
  round_lem b c w e h = ground (arith, writes b w.table)

  copy_lem :
      (batches : List (List Row)) (c : Cursor) (w : World Row) (e : ℕ)
      → c.end ≡ some e
      → ((copy write_data (some l) (map ok batches) c w).0
          ≡ ok (c.data_count + sum_of (λ b. length b) batches))
        × ((copy write_data (some l) (map ok batches) c w).1.table ≡ w.table ++ flatten batches)
  unfolding copy go_on flatten
  copy_lem [] c w e h = (ap ok (omega arith), sym (append-nil w.table))
  copy_lem (b ∷ batches) c w e h =
      let (total, table) = copy_lem batches (next_cursor b c e) (next_world b c w) (e + l) refl in
      rw (round_lem b c w e h)
        (total ∙ ap ok (omega arith), table ∙ append_assoc w.table b (flatten batches))

  publish_error-ok :
      (r : Result Error ℕ × World Row) (n : ℕ)
      → r.0 ≡ ok n
      → publish_error write_data (some l) r ≡ r
  unfolding publish_error
  publish_error-ok (ok m, w) n h = refl
  publish_error-ok (err e, w) n h = cc

  -- With a limit, batches that the source yields without error, and writes that succeed by
  -- appending, the table gets every batch in order, and the result is the number of rows copied.
  pub execute-copies :
      (batches : List (List Row)) (w : World Row)
      → ((execute write_data (some l) (ok (map ok batches)) w).0
          ≡ ok (sum_of (λ b. length b) batches))
        × ((execute write_data (some l) (ok (map ok batches)) w).1.table
            ≡ w.table ++ flatten batches)
  unfolding execute open_iterator
  execute-copies batches w =
      let first : Cursor = record { task_id = 0; start = 0; end = some l; data_count = 0 } in
      let (total, table) = copy_lem batches first w l refl in
      rw
        (publish_error-ok (copy write_data (some l) (map ok batches) first w)
          (0 + sum_of (λ b. length b) batches) total)
        (total ∙ ap ok (omega arith), table)

module _ {Row : Type 0} (write_data : List Row → List Row → Result Error (Unit {0}) × List Row)
    (writes : (rows table : List Row) → write_data rows table ≡ (ok tt, table ++ rows)) where
  -- Without a limit, and where writes succeed, the first batch is written, and then the run raises,
  -- since the window cannot be moved.
  pub execute-no_limit :
      (b : List Row) (rest : List (Result Error (List Row))) (w : World Row)
      → ((execute write_data none (ok (ok b ∷ rest)) w).0 ≡ err type_error)
        × ((execute write_data none (ok (ok b ∷ rest)) w).1.table ≡ w.table ++ b)
  unfolding execute open_iterator publish_error copy go_on round end_round write_batch advance
  execute-no_limit b rest w = ground (arith, writes b w.table)
