-- ===== src/Parallel/Total.antt =====
-- `ParallelThreadIntegrationExecute` from its start to its result: the reader and the writers run,
-- and the thread pool collects what the writers return.
use pdip.Prelude.{
  ℕ, zero, suc, ◌+◌, ◌<◌, ◌≡◌, refl, ap, ◌∙◌, String, Bool, true, Option, some, List, [], ◌∷◌, map,
  arith, length, count, sum_of, leb, ltb, ◌==◌, ◌&&◌, if◌then◌else◌,
}
use pdip.Prelude.Results.{Result, ok, err}
use pdip.Parallel.Domain.{Error, Site}
use pdip.Parallel.State.{Writer, waiting, working, returned, Run}
use pdip.Parallel.Schedule.{Thread, limited, reached}
use pdip.Parallel.Invariant.{IsFaithful, total_of, returned_of, failed_of}
use pdip.Parallel.Outcome.{HasEnded, copies_all, schedule-Reachable, returned-le-length}
use pdip.Parallel.Ended.{
  value_of, error_of, returned_total, ended_of, ended_at, Matches, initial-run-Matches,
}
use pdip.Processing.Tasks.{Answer, answers_of, AliveUntilRead}
use pdip.Threading.Worker.{new_task, report}
use pdip.Threading.Broker.{Arrival}
use pdip.Threading.Totals.{execute_data, to_arrival, execute_data-sum_threads}

-- The messages of the workers: the writer `i` runs in the thread `i + 1`, and `alive j` says which
-- threads are alive when the broker reads its message number j.
unfoldable pub messages :
    (Error → String) → (ℕ → ℕ → Bool) → ℕ → List (ℕ × Result Error ℕ) → List (Arrival Error ℕ)
messages format_exc alive j [] = []
messages format_exc alive j ((i, x) ∷ ended) =
    record { task = report format_exc (suc i) (new_task (suc i)) x; alive = alive j }
    ∷ messages format_exc alive (suc j) ended

-- What `start_execute_data_subprocess` returns or raises; `none` where it still waits.
unfoldable pub total_row_count :
    {Row : Type 0} → Site Row → (ℕ → ℕ → Bool) → ℕ → Run Row → Option (Result Error ℕ)
unfolding messages
total_row_count site alive n r = execute_data n (messages site.format_exc alive 0 r.ended)

-- The same messages as the answers of threads.
abbrev pub answers : (ℕ → ℕ → Bool) → ℕ → List (ℕ × Result Error ℕ) → List Answer
answers alive j [] = []
answers alive j ((i, x) ∷ ended) =
    record { id = suc i; value = value_of x; alive = alive j } ∷ answers alive (suc j) ended

module _ (format_exc : Error → String) (alive : ℕ → ℕ → Bool) where
  messages_lem :
      (j : ℕ) (ended : List (ℕ × Result Error ℕ))
      → sum_of (λ e. error_of e.1) ended ≡ 0
      → messages format_exc alive j ended ≡ map (to_arrival format_exc) (answers alive j ended)
  unfolding messages
  messages_lem j [] h = refl
  messages_lem j ((i, ok v) ∷ ended) h =
      ap (λ l. to_arrival format_exc (record { id = suc i; value = v; alive = alive j }) ∷ l)
        (messages_lem (suc j) ended (omega arith))
  messages_lem j ((i, err e) ∷ ended) h = absurd (omega arith)

answers-values :
    (alive : ℕ → ℕ → Bool) (j : ℕ) (ended : List (ℕ × Result Error ℕ))
    → sum_of (λ a. a.value) (answers alive j ended) ≡ sum_of (λ e. value_of e.1) ended
answers-values alive j [] = refl
answers-values alive j ((i, x) ∷ ended) =
    ap (λ s. value_of x + s) (answers-values alive (suc j) ended)

length-answers :
    (alive : ℕ → ℕ → Bool) (j : ℕ) (ended : List (ℕ × Result Error ℕ))
    → length (answers alive j ended) ≡ length ended
length-answers alive j [] = refl
length-answers alive j ((i, x) ∷ ended) = ap suc (length-answers alive (suc j) ended)

answers_of-suc :
    (alive : ℕ → ℕ → Bool) (j k : ℕ) (ended : List (ℕ × Result Error ℕ))
    → answers_of (suc k) (answers alive j ended) ≡ count (λ e. e.0 == k) ended
answers_of-suc alive j k [] = refl
answers_of-suc alive j k ((i, x) ∷ ended) = ground (arith, answers_of-suc alive (suc j) k ended)

answers_of-zero :
    (alive : ℕ → ℕ → Bool) (j : ℕ) (ended : List (ℕ × Result Error ℕ))
    → answers_of 0 (answers alive j ended) ≡ 0
answers_of-zero alive j [] = refl
answers_of-zero alive j ((i, x) ∷ ended) = ground (arith, answers_of-zero alive (suc j) ended)

module _ {Row : Type 0} where
  -- Where every writer has returned.
  all_returned_lem :
      (ws : List (Writer Row))
      → sum_of returned_of ws ≡ length ws
      → (sum_of returned_total ws ≡ sum_of total_of ws)
        × (sum_of failed_of ws ≡ 0)
        × (sum_of ended_of ws ≡ length ws)
        × ((k : ℕ) → ended_at k ws ≡ (if ltb k (length ws) then 1 else 0))
  all_returned_lem [] h = (refl, refl, refl, λ k. ground arith)
  all_returned_lem (returned t ∷ ws) h =
      let (totals, failed, size, each) = all_returned_lem ws (omega arith) in
      (omega arith, omega arith, omega arith, at each)
    where
      at :
          ((k : ℕ) → ended_at k ws ≡ (if ltb k (length ws) then 1 else 0))
          → (k : ℕ) → ended_at k (returned t ∷ ws) ≡ (if ltb k (suc (length ws)) then 1 else 0)
      at each zero = ground arith
      at each (suc k) = ground (arith, each k)
  all_returned_lem (waiting t ∷ ws) h = absurd (omega (arith, returned-le-length ws))
  all_returned_lem (working t x ∷ ws) h = absurd (omega (arith, returned-le-length ws))
  all_returned_lem (Writer.raised e ∷ ws) h = absurd (omega (arith, returned-le-length ws))

  each_answer :
      (alive : ℕ → ℕ → Bool) (ended : List (ℕ × Result Error ℕ)) (ws : List (Writer Row)) (n : ℕ)
      → Matches ws ended
      → length ws ≡ n
      → ((k : ℕ) → ended_at k ws ≡ (if ltb k (length ws) then 1 else 0))
      → (k : ℕ) → answers_of k (answers alive 0 ended) ≡ (if leb 1 k && leb k n then 1 else 0)
  each_answer alive ended ws n m size each zero = ground (arith, answers_of-zero alive 0 ended)
  each_answer alive ended ws n m size each (suc k) =
      ground (arith, answers_of-suc alive 0 k ended, m.each k, each k)

module _ {Row : Type 0} (site : Site Row) (signal : ℕ → Bool) (rows : List Row) (l n : ℕ)
    (before : List Row) (faithful : IsFaithful site rows) (l_pos : 0 < l)
    (told : (k : ℕ) → 0 < k → signal k ≡ true) where
  -- Over a source that pages faithfully and with a positive limit, where a writer reports True
  -- after every task with rows, and for at least one process: whatever the interleaving, once the
  -- reader has finished and every writer has returned, and where each thread is alive until its
  -- message has been read, the strategy returns, and what it returns is the number of rows.
  pub reached-total_row_count :
      (alive : ℕ → ℕ → Bool) (ts : List Thread)
      → 0 < n
      → HasEnded (reached site signal n l before ts)
      → AliveUntilRead (answers alive 0 (reached site signal n l before ts).ended)
      → total_row_count site alive n (reached site signal n l before ts) ≡ some (ok (length rows))
  unfolding total_row_count
  reached-total_row_count alive ts n_pos ended in_time =
      let r = reached site signal n l before ts in
      let m = initial-run-Matches site signal (limited n l) ts before in
      let reach =
        schedule-Reachable site signal rows l n before faithful l_pos told (λ _. true) ts in
      let size = reach.inv.size in
      let (totals, failed, ends, each) = all_returned_lem r.writers ended.1 in
      let copied =
        copies_all site signal rows l n before faithful l_pos told (λ _. true) ts n_pos ended in
      let same = messages_lem site.format_exc alive 0 r.ended (omega (arith, m.errors, failed)) in
      let total =
        execute_data-sum_threads site.format_exc n (answers alive 0 r.ended) n_pos
          (omega (arith, length-answers alive 0 r.ended, m.size, ends, size))
          (each_answer alive r.ended r.writers n m size each) in_time in
      ap (execute_data n) same
      ∙ total
      ∙ ap some (ap ok (omega (arith, answers-values alive 0 r.ended, m.values, totals, copied.1)))
