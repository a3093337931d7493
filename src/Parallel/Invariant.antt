-- ===== src/Parallel/Invariant.antt =====
-- What holds in every state that an interleaving of the reader and the writers can reach, over a
-- source that pages faithfully.
pub mod ReaderSteps
pub mod WriterSteps
pub mod QueueOrder
use pdip.Prelude.{
  ℕ, ◌+◌, ◌-◌, ◌≤◌, ◌<◌, ◌≡◌, ◌⊎◌, Bool, true, false, not, ◌&&◌, Option, none, some, List, ◌++◌,
  length, take, drop, count, sum_of, ltb, ◌==◌, if◌then◌else◌, is_none,
}
use pdip.Prelude.Results.{Result, ok}
use pdip.Parallel.Domain.{DataQueueTask, Site, Config}
use pdip.Parallel.State.{
  Cursor, Reader, counting, checking, awaiting, closing, finished, failing, Writer, waiting,
  working, returned, Run,
}

-- The documented behaviour of the adapters over a source whose rows do not change: the count is
-- the number of rows, a page is the rows with `start < row_number <= end`, and a write that
-- succeeds appends its rows to the target table.
pub record IsFaithful {Row : Type 0} (site : Site Row) (source : List Row) : Type 0 where
  pub counts : site.get_source_data_count ≡ ok (length source)
  pub pages :
      (s e : ℕ) (rows : List Row)
      → site.get_source_data_with_paging s e ≡ ok rows
      → rows ≡ take (e - s) (drop s source)
  pub writes :
      (rows table table' : List Row) (n : ℕ)
      → site.write_data rows table ≡ (ok n, table')
      → table' ≡ table ++ rows

-- 1 for a task that is not one of the reader's, in a run with windows of `l` rows.
abbrev pub bad_window : ℕ → ℕ → Option ℕ → Option ℕ → ℕ
bad_window n l (some s) (some e) = if ltb s n && e == (s + l) then 0 else 1
bad_window n l _ _ = 1

abbrev pub bad_task : {Row : Type 0} → ℕ → ℕ → DataQueueTask Row → ℕ
bad_task n l t =
    if t.is_finished
    then (if is_none t.exception then 0 else 1)
    else (if is_none t.payload then bad_window n l t.start t.end else 1)

abbrev pub fin_task : {Row : Type 0} → DataQueueTask Row → ℕ
fin_task t = if t.is_finished then 1 else 0

abbrev pub window_weight : {Row : Type 0} → (Row → Bool) → List Row → Option ℕ → Option ℕ → ℕ
window_weight p source (some s) (some e) = count p (take (e - s) (drop s source))
window_weight p source _ _ = 0

-- How many rows that pass `p` a task stands for.
abbrev pub task_weight : {Row : Type 0} → (Row → Bool) → List Row → DataQueueTask Row → ℕ
task_weight p source t = if t.is_finished then 0 else window_weight p source t.start t.end

-- A number taken from the task that a writer works on.
abbrev pub of_task : {Row : Type 0} → (DataQueueTask Row → ℕ) → Writer Row → ℕ
of_task f (working total t) = f t
of_task f (waiting total) = 0
of_task f (returned total) = 0
of_task f (Writer.raised e) = 0

abbrev pub fin_writer : {Row : Type 0} → Writer Row → ℕ
fin_writer (working total t) = fin_task t
fin_writer (waiting total) = 0
fin_writer (returned total) = 1
fin_writer (Writer.raised e) = 0

abbrev pub total_of : {Row : Type 0} → Writer Row → ℕ
total_of (working total t) = total
total_of (waiting total) = total
total_of (returned total) = total
total_of (Writer.raised e) = 0

abbrev pub returned_of : {Row : Type 0} → Writer Row → ℕ
returned_of (working total t) = 0
returned_of (waiting total) = 0
returned_of (returned total) = 1
returned_of (Writer.raised e) = 0

abbrev pub failed_of : {Row : Type 0} → Writer Row → ℕ
failed_of (working total t) = 0
failed_of (waiting total) = 0
failed_of (returned total) = 0
failed_of (Writer.raised e) = 1

-- The finish tasks that the reader has still to put.
abbrev pub fins_left : ℕ → Reader → ℕ
fins_left n counting = n
fins_left n (checking c) = n
fins_left n (awaiting c) = n
fins_left n (closing k) = k
fins_left n finished = 0
fins_left n (failing e k) = 0
fins_left n (Reader.raised e) = 0

module _ {Row : Type 0} where
  -- How many writers have raised.
  abbrev pub failed : Run Row → ℕ
  failed r = sum_of failed_of r.writers

  -- The tasks in the queue and at the writers, and the results that are not read yet.
  abbrev pub on_the_way : Run Row → ℕ
  on_the_way r =
      length r.data_queue + sum_of (of_task (λ _. 1)) r.writers + length r.data_result_queue

module _ {Row : Type 0} (n l process_count : ℕ) where
  -- `handed` rows of the source have been handed out; `n` is their number in the source.
  abbrev pub Position : ℕ → Reader → Run Row → Type 0
  Position handed counting r = (handed ≡ 0) × (on_the_way r ≡ 0) × (failed r ≡ 0)
  Position handed (checking c) r =
      (c.data_count ≡ n)
      × (c.start ≡ handed)
      × (c.end ≡ some (handed + l))
      × (c.transmitted_data_count ≡ on_the_way r)
      × (failed r ≤ count not r.data_result_queue)
      × (0 < n)
  Position handed (awaiting c) r =
      (c.data_count ≡ n)
      × (c.start + l ≡ handed)
      × (c.end ≡ some handed)
      × (c.transmitted_data_count ≡ on_the_way r)
      × (failed r ≤ count not r.data_result_queue)
      × (c.start < n)
      × (process_count ≤ c.transmitted_data_count)
  Position handed (closing k) r = (n ≤ handed) ⊎ (0 < failed r)
  Position handed finished r = (n ≤ handed) ⊎ (0 < failed r)
  Position handed (failing e k) r = ⊥
  Position handed (Reader.raised e) r = ⊥

module _ {Row : Type 0} (source before : List Row) (p : Row → Bool) where
  -- Until a writer raises, each row that was handed out is in the table, in a queued task or at a
  -- writer, and the totals of the writers are the rows that they wrote.
  abbrev pub Balance : ℕ → Run Row → Type 0
  Balance handed r =
      failed r ≡ 0
      → (count p r.table
            + sum_of (task_weight p source) r.data_queue
            + sum_of (of_task (task_weight p source)) r.writers
          ≡ count p before + count p (take handed source))
        × (sum_of total_of r.writers + length before ≡ length r.table)

module _ {Row : Type 0} (source : List Row) (l process_count : ℕ) (before : List Row)
    (p : Row → Bool) where
  pub record Inv (r : Run Row) : Type 0 where
    pub handed : ℕ
    pub position : Position (length source) l process_count handed r.reader r
    pub balance : Balance source before p handed r
    pub sane :
        sum_of (bad_task (length source) l) r.data_queue
          + sum_of (of_task (bad_task (length source) l)) r.writers
        ≡ 0
    pub fins :
        fins_left process_count r.reader
          + sum_of fin_task r.data_queue
          + sum_of fin_writer r.writers
        ≡ process_count
    pub size : length r.writers ≡ process_count
    pub falses : count not r.data_result_queue ≤ failed r
