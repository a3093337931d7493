-- ===== src/Processing/Failure.antt =====
-- What the manager makes of a process that fails.
use pdip.Prelude.{
  ℕ, ◌+◌, ◌<◌, ◌≤◌, ◌≡◌, ◌≢◌, refl, ap, ◌∙◌, String, Bool, true, false, some, List, [], ◌∷◌, ◌++◌,
  map, arith, if_ind, count, sum_of, ◌==◌,
}
use pdip.Prelude.Results.{err}
use pdip.Processing.Manager.{
  will_terminate, ProcessInfo, ProcessTask, Arrival, Manager, new_task, configured, start_processes,
  mark_finished, check_unfinished, all_finished, finish_all, copy_result, on_error, on_result,
  is_error, check_processes,
}
use pdip.Processing.Subprocess.{report}
use pdip.Processing.Totals.{result_or_zero, add_results, add_all, execute_data}
use pdip.Processing.Tasks.{
  Answer, unfinished, unfinished_at, mark_unfinished_at, all_finished_iff, to_arrival, exceptions,
  copied, copied_ids, copied-exceptions, start_from-Started,
}

check_unfinished_at :
    (alive : ℕ → Bool) (f : ℕ) (xs : List ProcessInfo)
    → alive f ≡ true
    → sum_of (unfinished_at f) (check_unfinished alive xs) ≡ sum_of (unfinished_at f) xs
unfolding check_unfinished
check_unfinished_at alive f [] h = refl
check_unfinished_at alive f (x ∷ xs) h = ground (arith, check_unfinished_at alive f xs h, h)

unfinished_at-le :
    (f : ℕ) (xs : List ProcessInfo) → sum_of (unfinished_at f) xs ≤ sum_of unfinished xs
unfinished_at-le f [] = omega arith
unfinished_at-le f (x ∷ xs) = ground (arith, unfinished_at-le f xs)

module _ {E : Type 0} where
  finish_all-tasks :
      (alive : ℕ → Bool) (xs : List ProcessInfo) (m : Manager E ℕ)
      → (finish_all alive xs m).process_tasks ≡ m.process_tasks
  unfolding finish_all
  finish_all-tasks alive [] m = refl
  finish_all-tasks alive (x ∷ xs) m =
      let k = x.sub_process_id in
      let told : Manager E ℕ = record m {
        processes = mark_finished k m.processes;
        process_queue = m.process_queue ++ new_task k ∷ [];
        terminated = m.terminated ++ k ∷ [];
        log = m.log ++ will_terminate k ∷ [];
      } in
      if_ind (λ m'. (finish_all alive xs m').process_tasks ≡ m.process_tasks) (alive k) told m
        (λ _. finish_all-tasks alive xs told) (λ _. finish_all-tasks alive xs m)

module _ {E : Type 0} (format_exc : E → String) where
  -- The message of the process `f` whose target method raises `e`.
  abbrev pub failure : ℕ → E → (ℕ → Bool) → Arrival E ℕ
  failure f e alive = record { task = report format_exc f (new_task f) (err e); alive = alive }

  add_results-failure :
      (f : ℕ) (e : E) (alive : ℕ → Bool) (total : ℕ) (ts : List (ProcessTask E ℕ))
      → sum_of exceptions ts ≡ 0
      → 0 < count (λ t. t.sub_process_id == f) ts
      → add_results total (copy_result (failure f e alive).task ts) ≡ err e
  unfolding add_results copy_result report
  add_results-failure f e alive total [] clean h = absurd (omega (arith, h))
  add_results-failure f e alive total (t ∷ ts) clean h =
      ground (arith, add_results-failure f e alive (total + result_or_zero t.result) ts, clean, h)

  -- The answers that are read before: of other processes, while the process `f` is alive.
  abbrev pub AreBefore : ℕ → List Answer → Type 0
  AreBefore f [] = Unit
  AreBefore f (a ∷ before) = (a.id ≢ f) × (a.alive f ≡ true) × AreBefore f before

  on_result-open :
      (f : ℕ) (a : Answer) (m : Manager E ℕ)
      → a.id ≢ f
      → a.alive f ≡ true
      → sum_of (unfinished_at f) (on_result (to_arrival format_exc a) m).processes
        ≡ sum_of (unfinished_at f) m.processes
  unfolding on_result report
  on_result-open f a m other alive =
      check_unfinished_at a.alive f (mark_finished a.id m.processes) alive
      ∙ ground (arith, mark_unfinished_at a.id f m.processes, other)

  -- From a state in which the process `f` is unfinished and its task is there.
  raises :
      (f : ℕ) (e : E) (alive : ℕ → Bool) (rest : List (Arrival E ℕ)) (before : List Answer)
      (m : Manager E ℕ)
      → 0 < sum_of (unfinished_at f) m.processes
      → 0 < count (λ t. t.sub_process_id == f) m.process_tasks
      → sum_of exceptions m.process_tasks ≡ 0
      → AreBefore f before
      → add_all (check_processes (map (to_arrival format_exc) before ++ failure f e alive ∷ rest) m)
        ≡ some (err e)
  unfolding add_all check_processes report on_error is_error
  raises f e alive rest [] m unmarked task clean b =
      let task_there = finish_all-tasks alive m.processes m in
      ap some (
        add_results-failure f e alive 0 (finish_all alive m.processes m).process_tasks
          (rw task_there clean) (rw task_there task))
  raises f e alive rest (a ∷ before) m unmarked task clean (other, live, b) =
      let m' = on_result (to_arrival format_exc a) m in
      let left = on_result-open f a m other live in
      let tasks : m'.process_tasks ≡ copied format_exc a m.process_tasks =
        unfold on_result in refl in
      let more : all_finished m'.processes ≡ false =
        ground
          (arith, all_finished_iff m'.processes, unfinished_at-le f m'.processes, left, unmarked) in
      let later =
        raises f e alive rest before m' (omega (arith, left, unmarked))
          (rw tasks (omega (arith, copied_ids format_exc f a m.process_tasks, task)))
          (rw tasks (copied-exceptions format_exc a m.process_tasks clean)) b in
      rw more later

  -- Where the target method of one of the processes 1, …, n raises, and every message that is read
  -- before its message is a number that another process returned, read while the failing process
  -- is alive: the collection ends, and the exception is raised, whatever messages come behind it.
  pub execute_data-raises :
      (n f : ℕ) (e : E) (alive : ℕ → Bool) (before : List Answer) (rest : List (Arrival E ℕ))
      → 1 ≤ f
      → f ≤ n
      → AreBefore f before
      → execute_data n (map (to_arrival format_exc) before ++ failure f e alive ∷ rest)
        ≡ some (err e)
  unfolding execute_data start_processes
  execute_data-raises n f e alive before rest low high b =
      let s = start_from-Started {E = E} 1 n configured in
      raises f e alive rest before (start_processes n) (ground (arith, s.open_at f, low, high))
        (ground (arith, s.tasks f, low, high)) (omega (arith, s.clean)) b
