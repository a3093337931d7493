-- ===== src/Parallel/Reader.antt =====
-- `SourceReadOperation.start`
-- (pdip/integrator/integration/types/sourcetotarget/strategies/parallelthread/operation/source/
-- source_read_operation.py), one step for each stretch between two queue operations.
use pdip.Prelude.{
  ℕ, zero, suc, ◌+◌, ◌-◌, Bool, true, false, not, ◌&&◌, Option, none, some, List, [], ◌∷◌, ◌++◌,
  ltb, leb, ◌==◌, if◌then◌else◌,
}
use pdip.Prelude.Results.{Result, ok, err}
use pdip.Parallel.Domain.{
  Error, type_error, DataQueueTask, finish_task, Log, source_started, source_finished,
  source_failed_with, Site, Config,
}
use pdip.Parallel.State.{
  Cursor, Reader, counting, checking, awaiting, closing, finished, failing, Run,
}

-- `end != limit and end - data_count >= limit`; the difference may be negative in Python.
unfoldable pub past_end : Option ℕ → Option ℕ → ℕ → Bool
past_end (some e) (some l) data_count = not (e == l) && leb (l + data_count) e
past_end _ _ data_count = false

-- `end += limit; start += limit`
unfoldable pub advance : Option ℕ → Cursor → Result Error Cursor
advance none c = err type_error
advance (some l) c = elim c.end [
  | none ↦ err type_error
  | some e ↦ ok (record c { start = c.start + l; end = some (e + l) })
]

-- The task for the window of the cursor.
unfoldable pub window_task : {Row : Type 0} → Option ℕ → Cursor → DataQueueTask Row
window_task limit c = record {
  id = some c.id;
  payload = none;
  data_types = none;
  is_data_frame = false;
  start = some c.start;
  end = c.end;
  limit = limit;
  is_finished = false;
  traceback = none;
  exception = none;
}

module _ {Row : Type 0} (site : Site Row) (config : Config) where
  -- The `except` clause and the two ways on from a window.
  unfoldable pub resume : Result Error Cursor → Reader
  resume (ok c) = checking c
  resume (err e) = failing e config.process_count

  -- Before the loop: the start message, and the number of rows of the source.
  unfoldable pub read_count : Run Row → Run Row
  read_count r = record r {
    reader = elim site.get_source_data_count [
      | err e ↦ failing e config.process_count
      | ok n ↦
          if ltb 0 n
          then checking (record {
            data_count = n;
            transmitted_data_count = 0;
            start = 0;
            end = config.limit;
            id = 0;
          })
          else closing config.process_count
    ];
    channel = r.channel ++ source_started ∷ [];
  }

  -- One round of the loop up to the read of a result: put the task for the next window.
  unfoldable pub put_window : Cursor → Run Row → Run Row
  unfolding window_task
  put_window c r =
      let c' = record c { transmitted_data_count = c.transmitted_data_count + 1; id = c.id + 1 } in
      record r {
        reader =
            if leb config.process_count c'.transmitted_data_count
            then awaiting c'
            else resume (advance config.limit c');
        data_queue = r.data_queue ++ window_task config.limit c' ∷ [];
      }

  -- A finish task, or an error task in the `except` clause.
  unfoldable pub error_task : Error → DataQueueTask Row
  error_task e = record {
    id = none;
    payload = none;
    data_types = none;
    is_data_frame = true;
    start = none;
    end = none;
    limit = none;
    is_finished = true;
    traceback = some (site.format_exc e);
    exception = some e;
  }

  unfoldable pub put : DataQueueTask Row → Reader → Run Row → Run Row
  put t next r = record r { reader = next; data_queue = r.data_queue ++ t ∷ [] }

  unfoldable pub publish_and : Log → Reader → Run Row → Run Row
  publish_and l next r = record r { reader = next; channel = r.channel ++ l ∷ [] }

  -- The read of a result: `True` lets one more window go out, `False` leaves the loop.
  unfoldable pub take_result : Cursor → List Bool → Run Row → Option (Run Row)
  take_result c [] r = none
  take_result c (true ∷ rest) r = some (record r {
    reader =
        resume (
          advance config.limit
            (record c { transmitted_data_count = c.transmitted_data_count - 1 }));
    data_result_queue = rest;
  })
  take_result c (false ∷ rest) r =
      some (record r { reader = closing config.process_count; data_result_queue = rest })

  -- The next step of the reader; `none` where it waits for a result or has ended.
  unfoldable pub read_step : Reader → Run Row → Option (Run Row)
  unfolding past_end advance resume read_count put_window error_task put publish_and take_result
  read_step counting r = some (read_count r)
  read_step (checking c) r =
      if past_end c.end config.limit c.data_count
      then some (record r { reader = closing config.process_count })
      else some (put_window c r)
  read_step (awaiting c) r = take_result c r.data_result_queue r
  read_step (closing zero) r = some (publish_and source_finished finished r)
  read_step (closing (suc k)) r = some (put finish_task (closing k) r)
  read_step finished r = none
  read_step (failing e zero) r = some (publish_and (source_failed_with e) (Reader.raised e) r)
  read_step (failing e (suc k)) r = some (put (error_task e) (failing e k) r)
  read_step (Reader.raised e) r = none
