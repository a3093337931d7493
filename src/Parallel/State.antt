-- ===== src/Parallel/State.antt =====
-- Where each thread of the parallel strategy stands, and the queues between the threads.
use pdip.Prelude.{ℕ, Bool, Option, List}
use pdip.Prelude.Results.{Result}
use pdip.Parallel.Domain.{Error, DataQueueTask, Log}

-- The local variables of the `while` loop of `SourceReadOperation.start`.
pub record Cursor : Type 0 where
  pub data_count : ℕ
  pub transmitted_data_count : ℕ
  pub start : ℕ
  pub end : Option ℕ
  pub id : ℕ

-- The points of `SourceReadOperation.start` between two queue operations. `closing k` and
-- `failing e k` have k finish tasks still to put.
pub data Reader : Type 0 where
  counting : Reader
  checking : Cursor → Reader
  awaiting : Cursor → Reader
  closing : ℕ → Reader
  finished : Reader
  failing : Error → ℕ → Reader
  raised : Error → Reader

-- The points of `TargetWriteOperation.start`, with `total_row_count`.
pub data Writer (Row : Type 0) : Type 0 where
  waiting : ℕ → Writer Row
  working : ℕ → DataQueueTask Row → Writer Row
  returned : ℕ → Writer Row
  raised : Error → Writer Row

-- `ended` holds the results of the writers in the order in which they end.
pub record Run (Row : Type 0) : Type 0 where
  pub reader : Reader
  pub writers : List (Writer Row)
  pub data_queue : List (DataQueueTask Row)
  pub data_result_queue : List Bool
  pub table : List Row
  pub channel : List Log
  pub ended : List (ℕ × Result Error ℕ)
