-- ===== src/Processing/Totals.antt =====
-- The loop over the results in `start_execute_data_subprocess`
-- (pdip/integrator/integration/types/sourcetotarget/strategies/parallelold/base/
-- parallel_integration_execute.py).
use pdip.Prelude.{ℕ, ◌+◌, Option, none, some, List, [], ◌∷◌}
use pdip.Prelude.Results.{Result, ok, err}
use pdip.Processing.Manager.{ProcessTask, Arrival, Manager, start_processes, check_processes}

abbrev pub result_or_zero : Option ℕ → ℕ
result_or_zero none = 0
result_or_zero (some k) = k

module _ {E : Type 0} where
  unfoldable pub add_results : ℕ → List (ProcessTask E ℕ) → Result E ℕ
  add_results total [] = ok total
  add_results total (t ∷ ts) =
      let rest = add_results (total + result_or_zero t.result) ts in
      elim t.exception [ none ↦ rest | some e ↦ err e ]

  unfoldable pub add_all : Option (Manager E ℕ) → Option (Result E ℕ)
  unfolding add_results
  add_all none = none
  add_all (some m) = some (add_results 0 m.process_tasks)

  -- start_processes, get_results and the loop, over the messages that arrive; `none` where the
  -- strategy still waits.
  unfoldable pub execute_data : ℕ → List (Arrival E ℕ) → Option (Result E ℕ)
  unfolding add_all
  execute_data process_count arrivals =
      add_all (check_processes arrivals (start_processes process_count))
