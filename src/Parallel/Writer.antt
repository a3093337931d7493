-- ===== src/Parallel/Writer.antt =====
-- `TargetWriteOperation.start`
-- (pdip/integrator/integration/types/sourcetotarget/strategies/parallelthread/operation/target/
-- target_write_operation.py) and its copy in parallelold, one step for each stretch between two
-- queue operations.
use pdip.Prelude.{
  ℕ, ◌+◌, Bool, true, false, Option, none, some, List, [], ◌∷◌, ◌++◌, length, set, ltb,
  if◌then◌else◌,
}
use pdip.Prelude.Results.{Result, ok, err}
use pdip.Parallel.Domain.{
  Error, type_error, timed_out, execution_timed_out, source_failed, DataQueueTask, Log,
  got_task_without_data, got_task, got_empty_task, task_finished, tasks_finished, task_timed_out,
  Site,
}
use pdip.Parallel.State.{Writer, waiting, working, returned, Run}

-- `thread_result`: what a writer reports after a task with so many rows.
unfoldable pub thread_result : ℕ → Bool
thread_result data_count = ltb 0 data_count

-- The writers of parallelold report `True` after every task.
unfoldable pub process_result : ℕ → Bool
process_result data_count = true

-- What the caller sees of an exception.
unfoldable pub raise_from : Error → Error
raise_from (timed_out s) = execution_timed_out s
raise_from e = e

-- The messages of the `except` clauses.
unfoldable pub error_log : {Row : Type 0} → ℕ → DataQueueTask Row → Error → List Log
error_log i t (timed_out s) = task_timed_out i t.id s ∷ []
error_log i t e = []

module _ {Row : Type 0} (site : Site Row) where
  -- `write_target_data` and `return len(source_data)`.
  unfoldable pub write : List Row → List Row → Result Error ℕ × List Row
  write source_data table =
      let (answer, table') = site.write_data source_data table in
      (elim answer [ ok _ ↦ ok (length source_data) | err e ↦ err e ], table')

  unfoldable pub write_page : Result Error (List Row) → List Row → Result Error ℕ × List Row
  unfolding write
  write_page (ok rows) table = write rows table
  write_page (err e) table = (err e, table)

  -- start_execute_integration_with_paging; `end - start` raises where one is None.
  unfoldable pub execute_with_paging : Option ℕ → Option ℕ → List Row → Result Error ℕ × List Row
  unfolding write_page
  execute_with_paging (some s) (some e) table =
      write_page (site.get_source_data_with_paging s e) table
  execute_with_paging _ _ table = (err type_error, table)

  -- The rows of a task with data, as the target adapter gets them.
  unfoldable pub convert : DataQueueTask Row → List Row → List Row
  convert t rows =
      let typed : List Row = elim t.data_types [
        | none ↦ rows
        | some d ↦ if t.is_data_frame then site.astype d rows else rows
      ] in
      if t.is_data_frame then site.replace_nulls typed else typed

  -- start_execute_integration_with_source_data, for a task that holds rows.
  unfoldable pub execute_with_data :
      ℕ → DataQueueTask Row → List Row → List Row → (Result Error ℕ × List Row) × Log
  unfolding write convert
  execute_with_data i t [] table = ((ok 0, table), got_empty_task i t.id)
  execute_with_data i t (x ∷ rows) table = (write (convert t (x ∷ rows)) table, got_task i t.id)

  -- The work on one task: the number of rows or the exception, the table after it, the message.
  unfoldable pub process :
      ℕ → DataQueueTask Row → Option (List Row) → List Row → (Result Error ℕ × List Row) × Log
  unfolding execute_with_paging execute_with_data
  process i t none table = (execute_with_paging t.start t.end table, got_task_without_data i t.id)
  process i t (some rows) table =
      execute_with_data i t (if t.is_data_frame then site.frame rows else rows) table

  -- `str(None)` of a missing traceback cannot be joined to a text.
  unfoldable pub source_error : DataQueueTask Row → Error → Error
  source_error t e = elim t.traceback [ none ↦ type_error | some text ↦ source_failed text e ]

  module _ (signal : ℕ → Bool) (i : ℕ) where
    -- The `except` clauses: report `False`, and raise. What a writer returns or raises is put on the
    -- result queue by a later step of `ParallelWorker.run`; that put is made part of the writer's last
    -- step here and in `finish`, since nothing of the writer comes between, and `ended` has the
    -- results in the order of these steps.
    unfoldable pub fail : DataQueueTask Row → Error → Run Row → Run Row
    unfolding raise_from error_log
    fail t e r = record r {
      writers = set r.writers i (Writer.raised (raise_from e));
      data_result_queue = r.data_result_queue ++ false ∷ [];
      channel = r.channel ++ error_log i t e;
      ended = r.ended ++ (i, err (raise_from e)) ∷ [];
    }

    -- A finish task ends the writer, with its total or with the exception of the reader.
    unfoldable pub finish : ℕ → DataQueueTask Row → Option Error → Run Row → Run Row
    unfolding fail source_error
    finish total t none r = record r {
      writers = set r.writers i (returned total);
      channel = r.channel ++ tasks_finished i ∷ [];
      ended = r.ended ++ (i, ok total) ∷ [];
    }
    finish total t (some e) r = fail t (source_error t e) r

    -- After the work on a task.
    unfoldable pub report : ℕ → DataQueueTask Row → Result Error ℕ → Run Row → Run Row
    unfolding fail
    report total t (ok n) r = record r {
      writers = set r.writers i (waiting (total + n));
      data_result_queue = r.data_result_queue ++ signal n ∷ [];
      channel = r.channel ++ task_finished i t.id ∷ [];
    }
    report total t (err e) r = fail t e r

    -- The loop body after `data_queue.get()`.
    unfoldable pub handle : ℕ → DataQueueTask Row → Run Row → Run Row
    unfolding finish report
    handle total t r =
        if t.is_finished
        then finish total t t.exception r
        else (let ((answer, table'), message) = process i t t.payload r.table in
            report total t answer
              (record r { table = table'; channel = r.channel ++ message ∷ [] }))

    unfoldable pub get_task : ℕ → List (DataQueueTask Row) → Run Row → Option (Run Row)
    get_task total [] r = none
    get_task total (t ∷ rest) r =
        some (record r { writers = set r.writers i (working total t); data_queue = rest })

    -- The next step of a writer; `none` where it waits for a task or has ended.
    unfoldable pub write_step : Option (Writer Row) → Run Row → Option (Run Row)
    unfolding handle get_task
    write_step none r = none
    write_step (some (waiting total)) r = get_task total r.data_queue r
    write_step (some (working total t)) r = some (handle total t r)
    write_step (some (returned total)) r = none
    write_step (some (Writer.raised e)) r = none
