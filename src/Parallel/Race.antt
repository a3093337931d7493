-- ===== src/Parallel/Race.antt =====
-- What the parallel strategy returns when its threads end before their messages are read.
use pdip.Prelude.{ℕ, suc, ◌≤◌, ◌≡◌, ◌∙◌, Bool, false, some, List, ◌∷◌, map, arith}
use pdip.Prelude.Results.{Result, ok}
use pdip.Parallel.Domain.{Error, Site}
use pdip.Parallel.State.{Run}
use pdip.Parallel.Total.{messages, total_row_count}
use pdip.Processing.Subprocess as Subprocess
use pdip.Processing.Tasks.{Answer}
use pdip.Processing.Race.{execute_data-dead}
use pdip.Threading.Worker.{report}
use pdip.Threading.Refinement.{to_process_arrival}
use pdip.Threading.Totals.{execute_data_lem}

module _ {Row : Type 0} (site : Site Row) (alive : ℕ → ℕ → Bool) (n : ℕ) where
  -- Where the first message is read when all threads have ended, the strategy returns the number of
  -- rows of that one writer alone, whatever the other writers have copied and reported.
  pub total_row_count-dead :
      (i v : ℕ) (rest : List (ℕ × Result Error ℕ)) (r : Run Row)
      → r.ended ≡ (i, ok v) ∷ rest
      → suc i ≤ n
      → ((k : ℕ) → alive 0 k ≡ false)
      → total_row_count site alive n r ≡ some (ok v)
  unfolding total_row_count messages report Subprocess.report
  total_row_count-dead i v rest r first in_range dead =
      let answer : Answer = record { id = suc i; value = v; alive = alive 0 } in
      let later = messages site.format_exc alive 1 rest in
      rw first (
        execute_data_lem n (messages site.format_exc alive 0 ((i, ok v) ∷ rest))
        ∙ execute_data-dead site.format_exc n answer (map to_process_arrival later) (omega arith)
            in_range dead)
