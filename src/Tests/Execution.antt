-- ===== src/Tests/Execution.antt =====
-- A parallel run whose writers raise, and whose world counts the calls.
use pdip.Prelude.{List, ◌∷◌, true, false, ℕ, ◌+◌, [], none}
use pdip.Prelude.Results.{ok, err}
use pdip.Parallel.Domain.{other}
use pdip.Parallel.Execute.{
  Running, Processes, Entry, EndsWithEntry, EndsAmong, execute, execute_processes,
  execute-EndsAmong,
}

abbrev failing : Processes ℕ
failing = record {
  make_manager = λ w. (ok tt, w + 1);
  shutdown = λ w. (ok tt, w + 1);
  start_source_data_subprocess = λ w. (ok tt, w + 1);
  start_execute_data_subprocess = λ w. (err (other "OperationalError"), w + 1);
}

abbrev silent : Running ℕ
silent = record { published = []; world = 0 }

abbrev of_a_writer : List Entry
of_a_writer = ("Page 1 written", none) ∷ ("Page 2 written", none) ∷ []

execute-EndsAmong_example :
    EndsWithEntry failing (execute failing silent)
    × EndsWithEntry failing (execute_processes failing silent)
    × EndsAmong failing (true ∷ false ∷ []) of_a_writer (execute failing silent)
    × EndsAmong failing (true ∷ false ∷ []) of_a_writer (execute_processes failing silent)
execute-EndsAmong_example = execute-EndsAmong failing (true ∷ false ∷ []) of_a_writer silent
