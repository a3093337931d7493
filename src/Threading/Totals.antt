-- ===== src/Threading/Totals.antt =====
-- The loop over the results in `start_execute_data_subprocess`
-- (pdip/integrator/integration/types/sourcetotarget/strategies/parallelthread/base/
-- parallel_thread_integration_execute.py), and what it comes to.
use pdip.Prelude.{
  ℕ, ◌+◌, ◌<◌, ◌≡◌, refl, ap, ◌∙◌, sym, String, ◌&&◌, Option, none, some, List, [], ◌∷◌, map, arith,
  length, sum_of, leb, if◌then◌else◌,
}
use mathlib.Core.Option
use pdip.Prelude.Results.{Result, ok, err}
use pdip.Processing.Subprocess as Subprocess
use pdip.Processing.Totals as Processes
use pdip.Processing.Tasks as Tasks
use pdip.Processing.Tasks.{Answer, answers_of, AliveUntilRead}
use pdip.Processing.Collect.{execute_data-sum}
use pdip.Threading.Worker.{ThreadTask, new_task, report}
use pdip.Threading.Broker.{Arrival, Broker, start, check_threads}
use pdip.Threading.Refinement.{
  to_process_task, to_process_arrival, to_manager, check_threads-refines, start_lem,
}

module _ {E : Type 0} where
  unfoldable pub add_results : ℕ → List (ThreadTask E ℕ) → Result E ℕ
  add_results total [] = ok total
  add_results total (t ∷ ts) =
      let rest = add_results (total + Processes.result_or_zero t.result) ts in
      elim t.exception [ none ↦ rest | some e ↦ err e ]

  unfoldable pub add_all : Option (Broker E ℕ) → Option (Result E ℕ)
  unfolding add_results
  add_all none = none
  add_all (some b) = some (add_results 0 b.thread_tasks)

  -- start, get_results and the loop, over the messages that arrive; `none` where the strategy still
  -- waits.
  unfoldable pub execute_data : ℕ → List (Arrival E ℕ) → Option (Result E ℕ)
  unfolding add_all
  execute_data process_count arrivals = add_all (check_threads arrivals (start process_count))

  add_results_lem :
      (total : ℕ) (ts : List (ThreadTask E ℕ))
      → Processes.add_results total (map to_process_task ts) ≡ add_results total ts
  unfolding add_results Processes.add_results
  add_results_lem total [] = refl
  add_results_lem total (t ∷ ts) =
      ground (arith, add_results_lem (total + Processes.result_or_zero t.result) ts)

  add_all_lem :
      (terminated : List ℕ) (o : Option (Broker E ℕ))
      → Processes.add_all (Option.map (to_manager terminated) o) ≡ add_all o
  unfolding add_all Processes.add_all
  add_all_lem terminated none = refl
  add_all_lem terminated (some b) = ap some (add_results_lem 0 b.thread_tasks)

  -- The strategies on threads and on processes make the same of the same messages.
  pub execute_data_lem :
      (n : ℕ) (arrivals : List (Arrival E ℕ))
      → execute_data n arrivals ≡ Processes.execute_data n (map to_process_arrival arrivals)
  unfolding execute_data Processes.execute_data
  execute_data_lem n arrivals =
      let (terminated, same) = check_threads-refines arrivals [] (start n) in
      rw (start_lem n, same) (sym (add_all_lem terminated (check_threads arrivals (start n))))

module _ {E : Type 0} (format_exc : E → String) where
  abbrev pub to_arrival : Answer → Arrival E ℕ
  to_arrival a = record {
    task = report format_exc a.id (new_task a.id) (ok a.value);
    alive = a.alive;
  }

  to_arrival_lem :
      (answers : List Answer)
      → map to_process_arrival (map to_arrival answers) ≡ map (Tasks.to_arrival format_exc) answers
  unfolding report Subprocess.report
  to_arrival_lem [] = refl
  to_arrival_lem (a ∷ answers) =
      ap (λ l. Tasks.to_arrival format_exc a ∷ l) (to_arrival_lem answers)

  -- For at least one thread, and whatever the order in which the threads return: if each of the
  -- threads 1, …, n returns a number once, and is alive until its message has been read, the
  -- collection ends, and the total is the sum of the numbers.
  pub execute_data-sum_threads :
      (n : ℕ) (answers : List Answer)
      → 0 < n
      → length answers ≡ n
      → ((k : ℕ) → answers_of k answers ≡ (if leb 1 k && leb k n then 1 else 0))
      → AliveUntilRead answers
      → execute_data n (map to_arrival answers) ≡ some (ok (sum_of (λ a. a.value) answers))
  execute_data-sum_threads n answers n_pos size each alive =
      execute_data_lem n (map to_arrival answers)
      ∙ ap (Processes.execute_data n) (to_arrival_lem answers)
      ∙ execute_data-sum format_exc n answers n_pos size each alive
