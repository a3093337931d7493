-- ===== src/Processing/Race.antt =====
-- What the manager makes of processes that have put their message and ended before it reads
-- another one's.
use pdip.Prelude.{ℕ, ◌≤◌, ◌≡◌, refl, ap, ◌∙◌, String, Bool, true, false, some, List, [], ◌∷◌, arith}
use pdip.Prelude.Results.{ok}
use pdip.Processing.Manager.{
  ProcessInfo, Arrival, configured, start_processes, mark_finished, check_unfinished, all_finished,
  on_result, check_processes,
}
use pdip.Processing.Subprocess.{report}
use pdip.Processing.Totals.{add_all, execute_data}
use pdip.Processing.Tasks.{
  Answer, to_arrival, copied, copied_results, copied-exceptions, add_results_lem,
  start_from-Started,
}

-- Where no process is alive, all are taken to be finished.
none_alive :
    (alive : ℕ → Bool) (xs : List ProcessInfo)
    → ((k : ℕ) → alive k ≡ false)
    → all_finished (check_unfinished alive xs) ≡ true
unfolding all_finished check_unfinished
none_alive alive [] dead = refl
none_alive alive (x ∷ xs) dead = ground (arith, dead x.sub_process_id, none_alive alive xs dead)

module _ {E : Type 0} (format_exc : E → String) where
  -- A message that is read when all processes have ended is the last one that is read: the total is
  -- the number of this process alone, whatever the others have put on the queue behind it.
  pub execute_data-dead :
      (n : ℕ) (a : Answer) (rest : List (Arrival E ℕ))
      → 1 ≤ a.id
      → a.id ≤ n
      → ((k : ℕ) → a.alive k ≡ false)
      → execute_data n (to_arrival format_exc a ∷ rest) ≡ some (ok a.value)
  unfolding execute_data add_all start_processes check_processes report on_result
  execute_data-dead n a rest low high dead =
      let m = start_processes n in
      let s = start_from-Started {E = E} 1 n configured in
      let done = none_alive a.alive (mark_finished a.id m.processes) dead in
      let own = s.tasks a.id in
      let tasks = copied format_exc a m.process_tasks in
      let one = copied_results format_exc a m.process_tasks (ground (arith, own)) in
      let clean = copied-exceptions format_exc a m.process_tasks s.clean in
      rw done (
        ap some (
          add_results_lem 0 tasks clean
          ∙ ap ok (ground (arith, one, own, s.results, s.results_at a.id))))
