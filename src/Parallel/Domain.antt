-- ===== src/Parallel/Domain.antt =====
-- The values that the reader and the writers exchange
-- (pdip/integrator/connection/domain/task/data_queue_task.py), and what they call.
use pdip.Prelude.{ℕ, String, Bool, true, Option, none, List}
use pdip.Prelude.Results.{Result}

-- The exceptions. `timed_out` is func_timeout's FunctionTimedOut with its `timedOutAfter`, and the
-- last two are the exceptions that the writers raise in place of another one.
pub data Error : Type 0 where
  other : String → Error
  type_error : Error
  timed_out : ℕ → Error
  execution_timed_out : ℕ → Error
  source_failed : String → Error → Error

-- A row of `DataQueueTask`; a field that Python leaves at None and that is only tested for truth
-- is a Bool. `IsProcessed`, `State` and `Message` are written and never read.
pub record DataQueueTask (Row : Type 0) : Type 0 where
  pub id : Option ℕ
  pub payload : Option (List Row)
  pub data_types : Option String
  pub is_data_frame : Bool
  pub start : Option ℕ
  pub end : Option ℕ
  pub limit : Option ℕ
  pub is_finished : Bool
  pub traceback : Option String
  pub exception : Option Error

-- DataQueueTask(IsFinished=True)
abbrev pub finish_task : {Row : Type 0} → DataQueueTask Row
finish_task = record {
  id = none;
  payload = none;
  data_types = none;
  is_data_frame = true;
  start = none;
  end = none;
  limit = none;
  is_finished = true;
  traceback = none;
  exception = none;
}

-- What a log message of the operations says, one constructor for each text.
pub data Log : Type 0 where
  source_started source_finished : Log
  source_failed_with : Error → Log
  got_task_without_data got_task got_empty_task task_finished : ℕ → Option ℕ → Log
  tasks_finished : ℕ → Log
  task_timed_out : ℕ → Option ℕ → ℕ → Log

-- The adapters and third-party calls. `write_data rows table` is the answer of the target adapter
-- and the target table after the call; the pandas steps are DataFrame(…), astype and the
-- replacement of missing values.
pub record Site (Row : Type 0) : Type 0 where
  pub get_source_data_count : Result Error ℕ
  pub get_source_data_with_paging : ℕ → ℕ → Result Error (List Row)
  pub write_data : List Row → List Row → Result Error ℕ × List Row
  pub frame : List Row → List Row
  pub astype : String → List Row → List Row
  pub replace_nulls : List Row → List Row
  pub format_exc : Error → String

-- The fields of the operation that the strategy reads.
pub record Config : Type 0 where
  pub process_count : ℕ
  pub limit : Option ℕ
