-- ===== src/Parallel/Processes.antt =====
-- The same algorithm in processes: `start_source_data_operation` and `start_execute_data_operation`
-- (pdip/integrator/integration/types/sourcetotarget/strategies/parallelold/base/
-- parallel_integration_execute.py), which differ from the operations of parallelthread in the
-- texts and in what a writer reports after a task.
use pdip.Prelude.{
  arith, ℕ, ◌<◌, ◌≡◌, refl, sym, ◌∙◌, Bool, true, Option, List, count, sum_of, get_elem?,
}
use pdip.Parallel.Domain.{Site, Config}
use pdip.Parallel.State.{Reader, Writer, Run}
use pdip.Parallel.Reader.{read_step}
use pdip.Parallel.Writer.{process_result, thread_result, write_step}
use pdip.Parallel.Schedule.{Thread, source, target, step, reached}
use pdip.Parallel.Invariant.{IsFaithful, total_of}
use pdip.Parallel.Outcome.{HasEnded, copies_all}

module _ {Row : Type 0} (site : Site Row) where
  unfoldable start_source_data_operation : Config → Reader → Run Row → Option (Run Row)
  unfolding read_step
  start_source_data_operation config reader r = read_step site config reader r

  unfoldable start_execute_data_operation : ℕ → Option (Writer Row) → Run Row → Option (Run Row)
  unfolding write_step process_result
  start_execute_data_operation i writer r = write_step site process_result i writer r

  abbrev process_step : Config → Thread → Run Row → Option (Run Row)
  process_step config source r = start_source_data_operation config r.reader r
  process_step config (target i) r = start_execute_data_operation i (get_elem? r.writers i) r

  step_in_processes :
      (config : Config) (t : Thread) (r : Run Row)
      → step site process_result config t r ≡ process_step config t r
  unfolding step start_source_data_operation start_execute_data_operation
  step_in_processes config source r = refl
  step_in_processes config (target i) r = refl

  -- The runs of `process_step` from the start, and those of the threads.
  abbrev pub reached_in_processes : ℕ → ℕ → List Row → List Thread → Run Row
  reached_in_processes n l before ts = reached site process_result n l before ts

  abbrev pub reached_in_threads : ℕ → ℕ → List Row → List Thread → Run Row
  reached_in_threads n l before ts = reached site thread_result n l before ts

  thread_result_told : (k : ℕ) → 0 < k → thread_result k ≡ true
  unfolding thread_result
  thread_result_told k h = ground arith

  process_result_told : (k : ℕ) → 0 < k → process_result k ≡ true
  unfolding process_result
  process_result_told k h = refl

  -- Over a source that pages faithfully, the strategy on processes and that on threads do the same,
  -- for any positive numbers of workers, any positive limits and any interleavings in which both
  -- end without an exception: for each test of rows, the tables hold equally many rows that pass
  -- it, and the totals are equal.
  pub processes-threads :
      (rows : List Row) (l n l' n' : ℕ) (before : List Row)
      → IsFaithful site rows
      → 0 < l
      → 0 < l'
      → 0 < n
      → 0 < n'
      → (p : Row → Bool) (ts ts' : List Thread) → HasEnded (reached_in_processes n l before ts)
      → HasEnded (reached_in_threads n' l' before ts')
      → (count p (reached_in_processes n l before ts).table
          ≡ count p (reached_in_threads n' l' before ts').table)
        × (sum_of total_of (reached_in_processes n l before ts).writers
            ≡ sum_of total_of (reached_in_threads n' l' before ts').writers)
  processes-threads rows l n l' n' before faithful l_pos l_pos' n_pos n_pos' p ts ts' e e' =
      let (table, total) =
        copies_all site process_result rows l n before faithful l_pos process_result_told p ts n_pos
          e in
      let (table', total') =
        copies_all site thread_result rows l' n' before faithful l_pos' thread_result_told p ts'
          n_pos' e' in
      (table ∙ sym table', total ∙ sym total')
