-- ===== src/Processing/Collect.antt =====
-- What the collection of results comes to.
use pdip.Prelude.{
  ℕ, ◌+◌, ◌<◌, ◌≤◌, ◌≡◌, ◌≢◌, refl, ap, ◌∙◌, String, true, false, ◌&&◌, some, List, [], ◌∷◌, map,
  arith, length, count, sum_of, leb, ◌==◌, if◌then◌else◌,
}
use pdip.Prelude.Results.{ok}
use pdip.Processing.Manager.{
  Manager, configured, start_processes, mark_finished, all_finished, on_result, check_processes,
}
use pdip.Processing.Subprocess.{report}
use pdip.Processing.Tasks.{
  Answer, unfinished, unfinished_at, answers_of, AliveUntilRead, mark_unfinished,
  mark_unfinished_at, check_alive, all_finished_iff, to_arrival, result_of, result_at, exceptions,
  copied, copied_ids, copied_results, copied-exceptions, copied-result_at, add_results_lem,
  start_from-Started,
}
use pdip.Processing.Totals.{add_all, execute_data}

module _ {E : Type 0} (format_exc : E → String) where
  -- The answers `rest` are still to come, each from a process that is not finished and for a task
  -- that has no result.
  record Awaits (m : Manager E ℕ) (rest : List Answer) : Type 0 where
    open_at : (k : ℕ) → sum_of (unfinished_at k) m.processes ≡ answers_of k rest
    total : sum_of unfinished m.processes ≡ length rest
    once : (k : ℕ) → answers_of k rest ≤ 1
    task_of :
        (k : ℕ)
        → 0 < answers_of k rest
        → (count (λ t. t.sub_process_id == k) m.process_tasks ≡ 1)
          × (sum_of (result_at k) m.process_tasks ≡ 0)
    clean : sum_of exceptions m.process_tasks ≡ 0

  -- The processes after the answer was read.
  processes_after :
      (m : Manager E ℕ) (a : Answer) (rest : List Answer)
      → Awaits m (a ∷ rest)
      → ((k : ℕ) → 0 < answers_of k rest → a.alive k ≡ true)
      → (on_result (to_arrival format_exc a) m).processes ≡ mark_finished a.id m.processes
  unfolding on_result report
  processes_after m a rest w alive =
      check_alive a.alive (mark_finished a.id m.processes)
        λ k some_left. alive k (ground (arith, mark_unfinished_at a.id k m.processes, w.open_at k))

  answer_step :
      (m : Manager E ℕ) (a : Answer) (rest : List Answer)
      → Awaits m (a ∷ rest)
      → ((k : ℕ) → 0 < answers_of k rest → a.alive k ≡ true)
      → Awaits (on_result (to_arrival format_exc a) m) rest
        × (sum_of result_of (on_result (to_arrival format_exc a) m).process_tasks
            ≡ sum_of result_of m.process_tasks + a.value)
  answer_step m a rest w alive =
      let processes = processes_after m a rest w alive in
      let tasks : (on_result (to_arrival format_exc a) m).process_tasks
          ≡ copied format_exc a m.process_tasks =
        unfold on_result in refl in
      let own = w.task_of a.id (ground (arith)) in
      (
        record {
          open_at = λ k. ground (
            arith,
            mark_unfinished_at a.id k m.processes,
            w.open_at k,
            w.once k,
            ap (sum_of (unfinished_at k)) processes,
          );
          total = ground (
            arith,
            mark_unfinished a.id m.processes,
            w.total,
            w.open_at a.id,
            w.once a.id,
            ap (sum_of unfinished) processes,
          );
          once = λ k. ground (arith, w.once k);
          task_of = λ k some_left.
              let other : a.id ≢ k = λ e. absurd (ground (arith, w.once k)) in
              let (one, none_yet) = w.task_of k (ground arith) in
              rw tasks (
                omega (
                  arith,
                  copied_ids format_exc k a m.process_tasks,
                  copied-result_at format_exc k a m.process_tasks other,
                ));
          clean = rw tasks (copied-exceptions format_exc a m.process_tasks w.clean);
        },
        rw tasks
            (ground (arith, copied_results format_exc a m.process_tasks (omega (arith, own.0)))),
      )

  -- From a state that waits for the answers, the loop ends with the last of them.
  collect :
      (rest : List Answer) (m : Manager E ℕ)
      → 0 < length rest
      → Awaits m rest
      → AliveUntilRead rest
      → (m' : Manager E ℕ) × (check_processes (map (to_arrival format_exc) rest) m ≡ some m')
        × (sum_of result_of m'.process_tasks
            ≡ sum_of result_of m.process_tasks + sum_of (λ a. a.value) rest)
        × (sum_of exceptions m'.process_tasks ≡ 0)
  unfolding check_processes report
  collect [] m h w alive = absurd (omega arith)
  collect (a ∷ []) m h w (alive, _) =
      let m' = on_result (to_arrival format_exc a) m in
      let (w', sum) = answer_step m a [] w alive in
      let done : all_finished m'.processes ≡ true =
        ground (arith, all_finished_iff m'.processes, w'.total) in
      (m', rw done, omega (arith, sum), w'.clean)
  collect (a ∷ b ∷ rest) m h w (alive, later) =
      let m' = on_result (to_arrival format_exc a) m in
      let (w', sum) = answer_step m a (b ∷ rest) w alive in
      let more : all_finished m'.processes ≡ false =
        ground (arith, all_finished_iff m'.processes, w'.total) in
      let (end, steps, total, clean) = collect (b ∷ rest) m' (omega arith) w' later in
      (end, rw more steps, omega (arith, sum, total), clean)

  -- For at least one process, and whatever the order in which the processes return: if each of the
  -- processes 1, …, n returns a number once, and is alive until its message has been read, the
  -- collection ends, and the total is the sum of the numbers.
  pub execute_data-sum :
      (n : ℕ) (answers : List Answer)
      → 0 < n
      → length answers ≡ n
      → ((k : ℕ) → answers_of k answers ≡ (if leb 1 k && leb k n then 1 else 0))
      → AliveUntilRead answers
      → execute_data n (map (to_arrival format_exc) answers)
        ≡ some (ok (sum_of (λ a. a.value) answers))
  unfolding execute_data add_all start_processes
  execute_data-sum n answers n_pos size each alive =
      let s = start_from-Started {E = E} 1 n configured in
      let (end, steps, total, clean) =
        collect answers (start_processes n) (omega (arith, size))
          (record {
            open_at = λ k. ground (arith, s.open_at k, each k);
            total = omega (arith, s.total, size);
            once = λ k. ground (arith, each k);
            task_of = λ k some_left. ground (arith, s.tasks k, s.results_at k, each k);
            clean = omega (arith, s.clean);
          })
          alive in
      rw steps (
        ap some
          (add_results_lem 0 end.process_tasks clean ∙ ap ok (omega (arith, total, s.results))))
