-- ===== src/Parallel/Completion.antt =====
-- What a run of the parallel strategy that can go no further has done.
use pdip.Prelude.{ℕ, ◌+◌, ◌<◌, ◌≡◌, Bool, true, none, List, arith, length, count, sum_of}
use pdip.Parallel.Domain.{Site}
use pdip.Parallel.Schedule.{Thread, step, limited, reached}
use pdip.Parallel.Invariant.{IsFaithful, total_of, failed_of}
use pdip.Parallel.Outcome.{copies_all, schedule-Reachable}
use pdip.Parallel.Progress.{no_deadlock}

module _ {Row : Type 0} (site : Site Row) (signal : ℕ → Bool) (rows : List Row) (l n : ℕ)
    (before : List Row) (faithful : IsFaithful site rows) (l_pos : 0 < l)
    (told : (k : ℕ) → 0 < k → signal k ≡ true) where
  -- Over a source that pages faithfully and with a positive limit, where a writer reports True
  -- after every task with rows, and for at least one process: wherever an interleaving comes to a
  -- stop, all threads being blocked or at an end, either a writer has raised or each row of the
  -- source has been copied exactly once. In the latter case the table holds, for each test of rows,
  -- as many more rows that pass it as the source has, and the totals add up to the number of rows.
  pub stopped-copies_all :
      (p : Row → Bool) (ts : List Thread)
      → 0 < n
      → ((t : Thread) → step site signal (limited n l) t (reached site signal n l before ts) ≡ none)
      → sum_of failed_of (reached site signal n l before ts).writers ≡ 0
      → (count p (reached site signal n l before ts).table ≡ count p before + count p rows)
        × (sum_of total_of (reached site signal n l before ts).writers ≡ length rows)
  stopped-copies_all p ts n_pos still none_failed =
      let (ended, all) =
        no_deadlock site signal rows l n before faithful l_pos told ts n_pos still in
      let size =
        (schedule-Reachable site signal rows l n before faithful l_pos told (λ _. true)
          ts).inv.size in
      copies_all site signal rows l n before faithful l_pos told p ts n_pos
        (ended, omega (arith, all, none_failed, size))
