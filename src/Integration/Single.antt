-- ===== src/Integration/Single.antt =====
-- `SingleProcessIntegrationExecute.execute`
-- (pdip/integrator/integration/types/sourcetotarget/strategies/singleprocess/base/
-- single_process_integration_execute.py).
use pdip.Prelude.{ℕ, ◌+◌, Option, none, some, List, [], ◌∷◌, ◌++◌, length}
use pdip.Prelude.Results.{Result, ok, err}
use pdip.Parallel.Domain.{Error, type_error}

-- What is published: a batch was read, a batch was written, the run ended with an exception. The
-- numbers are the task, and the start and the end of the window as they are counted.
pub data Log : Type 0 where
  readed_from_db process_finished : ℕ → ℕ → Option ℕ → Log
  getting_error : Error → Log

-- The local variables of the loop.
pub record Cursor : Type 0 where
  pub task_id : ℕ
  pub start : ℕ
  pub end : Option ℕ
  pub data_count : ℕ

-- The target table and the channel.
pub record World (Row : Type 0) : Type 0 where
  pub table : List Row
  pub channel : List Log

-- `end += limit; start += limit`, which raises where the limit is None.
unfoldable pub advance : Option ℕ → Cursor → Result Error Cursor
advance none c = err type_error
advance (some l) c = elim c.end [
  | none ↦ err type_error
  | some e ↦ ok (record c { end = some (e + l); start = c.start + l })
]

module _ {Row : Type 0} (write_data : List Row → List Row → Result Error (Unit {0}) × List Row)
    (limit : Option ℕ) where
  unfoldable pub write_batch : List Row → Cursor → World Row → Result Error (Unit {0}) × World Row
  write_batch results c w =
      let (answer, table') = write_data results w.table in
      (
        answer,
        record {
          table = table';
          channel = w.channel ++ readed_from_db c.task_id c.start c.end ∷ [];
        },
      )

  -- The end of a round: the second message, the count, and the window.
  unfoldable pub end_round :
      List Row → Cursor → Result Error (Unit {0}) × World Row → Result Error Cursor × World Row
  unfolding advance
  end_round results c (ok _, w) = (
    advance limit (record c { data_count = c.data_count + length results }),
    record w { channel = w.channel ++ process_finished c.task_id c.start c.end ∷ [] },
  )
  end_round results c (err e, w) = (err e, w)

  unfoldable pub round : List Row → Cursor → World Row → Result Error Cursor × World Row
  unfolding write_batch end_round
  round results c w =
      let c' = record c { task_id = c.task_id + 1 } in
      end_round results c' (write_batch results c' w)

  unfoldable pub go_on :
      (Cursor → World Row → Result Error ℕ × World Row)
      → Result Error Cursor × World Row
      → Result Error ℕ × World Row
  go_on next (ok c, w) = next c w
  go_on next (err e, w) = (err e, w)

  -- `for results in iterator`, over what the iterator yields or raises.
  unfoldable pub copy :
      List (Result Error (List Row)) → Cursor → World Row → Result Error ℕ × World Row
  unfolding round go_on
  copy [] c w = (ok c.data_count, w)
  copy (ok results ∷ rest) c w = go_on (copy rest) (round results c w)
  copy (err e ∷ rest) c w = (err e, w)

  -- The `except` clause.
  unfoldable pub publish_error : Result Error ℕ × World Row → Result Error ℕ × World Row
  publish_error (ok n, w) = (ok n, w)
  publish_error (err e, w) = (err e, record w { channel = w.channel ++ getting_error e ∷ [] })

  -- The whole method; `source` is what get_iterator returns or raises.
  unfoldable pub open_iterator :
      Result Error (List (Result Error (List Row))) → World Row → Result Error ℕ × World Row
  unfolding copy
  open_iterator (err e) w = (err e, w)
  open_iterator (ok iterator) w =
      copy iterator (record { task_id = 0; start = 0; end = limit; data_count = 0 }) w

  unfoldable pub execute :
      Result Error (List (Result Error (List Row))) → World Row → Result Error ℕ × World Row
  unfolding open_iterator publish_error
  execute source w = publish_error (open_iterator source w)
