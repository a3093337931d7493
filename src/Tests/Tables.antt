-- ===== src/Tests/Tables.antt =====
-- The parallel strategy over a table of three rows, and the single-process strategy.
use mathlib.Core.List.{flatten}
use pdip.Prelude.{
  ℕ, zero, suc, ◌+◌, ◌-◌, ◌*◌, ◌≤◌, ◌<◌, ◌≡◌, refl, true, none, some, List, [], ◌∷◌, ◌++◌, arith,
  length, take, drop, count, sum_of, ltb,
}
use pdip.Prelude.Results.{Result, ok}
use pdip.Parallel.Domain.{Error, Site}
use pdip.Parallel.State.{finished}
use pdip.Parallel.Reader.{read_step}
use pdip.Parallel.Writer.{thread_result, process_result, process, write_step}
use pdip.Parallel.Schedule.{Thread, source, target, initial, step, run, moves, limited, reached}
use pdip.Parallel.Invariant.{IsFaithful, total_of, returned_of, failed_of}
use pdip.Parallel.Outcome.{HasEnded, copies_all}
use pdip.Parallel.Completion.{stopped-copies_all}
use pdip.Parallel.Progress.{no_deadlock, moves-le}
use pdip.Parallel.Processes.{reached_in_processes, reached_in_threads, processes-threads}
use pdip.Integration.Single as Single
use pdip.Integration.Copy.{execute-copies}

abbrev pub rows : List ℕ
rows = 7 ∷ 8 ∷ 9 ∷ []

abbrev pub site : Site ℕ
site = record {
  get_source_data_count = ok 3;
  get_source_data_with_paging = λ s e. ok (take (e - s) (drop s rows));
  write_data = λ new table. (ok (length new), table ++ new);
  frame = λ l. l;
  astype = λ _ l. l;
  replace_nulls = λ l. l;
  format_exc = λ _. "Traceback";
}

pub site-IsFaithful : IsFaithful site rows
site-IsFaithful = record { counts = refl; pages = λ s e l h. cc; writes = λ l table table' n h. cc }

pub told : (k : ℕ) → 0 < k → thread_result k ≡ true
unfolding thread_result
told k h = ground arith

-- Two writers with windows of two rows, the threads taking turns.
abbrev turns : List Thread
turns = source ∷ source ∷ target 1 ∷ target 1 ∷ []

abbrev pub schedule : List Thread
schedule =
    turns
    ++ source ∷ source ∷ target 0 ∷ target 0 ∷ turns
    ++ turns
    ++ source
      ∷ target 0
      ∷ target 0
      ∷ source
      ∷ source
      ∷ source
      ∷ source
      ∷ target 0
      ∷ target 0
      ∷ target 1
      ∷ target 1
      ∷ target 1
      ∷ []

pub ended : HasEnded (reached site thread_result 2 2 (1 ∷ []) schedule)
unfolding run step initial thread_result read_step write_step process
ended = (refl, refl)

copies_all_example :
    (count (λ x. ltb 7 x) (reached site thread_result 2 2 (1 ∷ []) schedule).table
      ≡ count (λ x. ltb 7 x) (1 ∷ []) + count (λ x. ltb 7 x) rows)
    × (sum_of total_of (reached site thread_result 2 2 (1 ∷ []) schedule).writers ≡ length rows)
copies_all_example =
    copies_all site thread_result rows 2 2 (1 ∷ []) site-IsFaithful (omega arith) told
      (λ x. ltb 7 x) schedule (omega arith) ended

still :
    (t : Thread)
    → step site thread_result (limited 2 2) t (reached site thread_result 2 2 (1 ∷ []) schedule)
      ≡ none
unfolding run step initial thread_result read_step write_step process
still source = refl
still (target zero) = refl
still (target (suc zero)) = refl
still (target (suc (suc i))) = refl

no_deadlock_example :
    ((reached site thread_result 2 2 (1 ∷ []) schedule).reader ≡ finished)
    × (sum_of returned_of (reached site thread_result 2 2 (1 ∷ []) schedule).writers
          + sum_of failed_of (reached site thread_result 2 2 (1 ∷ []) schedule).writers
        ≡ 2)
no_deadlock_example =
    no_deadlock site thread_result rows 2 2 (1 ∷ []) site-IsFaithful (omega arith) told schedule
      (omega arith) still

none_failed : sum_of failed_of (reached site thread_result 2 2 (1 ∷ []) schedule).writers ≡ 0
unfolding run step initial thread_result read_step write_step process
none_failed = refl

stopped-copies_all_example :
    (count (λ x. ltb 7 x) (reached site thread_result 2 2 (1 ∷ []) schedule).table
      ≡ count (λ x. ltb 7 x) (1 ∷ []) + count (λ x. ltb 7 x) rows)
    × (sum_of total_of (reached site thread_result 2 2 (1 ∷ []) schedule).writers ≡ length rows)
stopped-copies_all_example =
    stopped-copies_all site thread_result rows 2 2 (1 ∷ []) site-IsFaithful (omega arith) told
      (λ x. ltb 7 x) schedule (omega arith) still none_failed

moves-le_example :
    moves site thread_result
      (limited 2 2)
      schedule
      (initial site thread_result (limited 2 2) (1 ∷ []))
    ≤ 4 * length rows + 3 * 2 + 4
moves-le_example =
    moves-le site thread_result rows 2 2 (1 ∷ []) site-IsFaithful (omega arith) told schedule

ended_in_processes : HasEnded (reached_in_processes site 2 2 (1 ∷ []) schedule)
unfolding run step initial process_result read_step write_step process
ended_in_processes = (refl, refl)

processes-threads_example :
    (count (λ x. ltb 7 x) (reached_in_processes site 2 2 (1 ∷ []) schedule).table
      ≡ count (λ x. ltb 7 x) (reached_in_threads site 2 2 (1 ∷ []) schedule).table)
    × (sum_of total_of (reached_in_processes site 2 2 (1 ∷ []) schedule).writers
        ≡ sum_of total_of (reached_in_threads site 2 2 (1 ∷ []) schedule).writers)
processes-threads_example =
    processes-threads site rows 2 2 2 2 (1 ∷ []) site-IsFaithful (omega arith) (omega arith)
      (omega arith) (omega arith) (λ x. ltb 7 x) schedule schedule ended_in_processes ended

-- The single-process strategy.
abbrev pub write_data : List ℕ → List ℕ → Result Error (Unit {0}) × List ℕ
write_data new table = (ok tt, table ++ new)

abbrev pub empty : Single.World ℕ
empty = record { table = []; channel = [] }

execute-copies_example :
    ((Single.execute write_data (some 2) (ok (ok (7 ∷ 8 ∷ []) ∷ ok (9 ∷ []) ∷ [])) empty).0 ≡ ok 3)
    × ((Single.execute write_data (some 2) (ok (ok (7 ∷ 8 ∷ []) ∷ ok (9 ∷ []) ∷ [])) empty).1.table
        ≡ 7 ∷ 8 ∷ 9 ∷ [])
unfolding flatten
execute-copies_example =
    execute-copies write_data 2 (λ new table. refl) ((7 ∷ 8 ∷ []) ∷ (9 ∷ []) ∷ []) empty
