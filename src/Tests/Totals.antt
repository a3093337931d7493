-- ===== src/Tests/Totals.antt =====
-- The totals of the parallel strategy, and its messages when the writers end early.
use mathlib.Core.Option
use pdip.Prelude.{
  ℕ, ◌≡◌, refl, String, true, false, some, List, [], ◌∷◌, map, arith, leb, ◌&&◌, if◌then◌else◌,
}
use pdip.Prelude.Results.{ok}
use pdip.Parallel.Reader.{read_step}
use pdip.Parallel.Writer.{thread_result, process, write_step}
use pdip.Parallel.Schedule.{initial, step, run, reached}
use pdip.Parallel.Total.{answers, total_row_count, reached-total_row_count}
use pdip.Parallel.Race.{total_row_count-dead}
use pdip.Processing.Tasks.{Answer, answers_of, AliveUntilRead}
use pdip.Processing.Manager.{check_processes}
use pdip.Threading.Broker.{Arrival, start, check_threads}
use pdip.Threading.Refinement.{to_manager, to_process_arrival, check_threads-refines}
use pdip.Threading.Totals.{to_arrival}
use pdip.Tests.Tables.{rows, site, site-IsFaithful, told, schedule, ended}

abbrev format_exc : String → String
format_exc e = e

-- Two workers that return in the other order.
abbrev two_answers : List Answer
two_answers =
    record { id = 2; value = 40; alive = λ _. true }
    ∷ record { id = 1; value = 60; alive = λ _. true }
    ∷ []

each : (k : ℕ) → answers_of k two_answers ≡ (if leb 1 k && leb k 2 then 1 else 0)
each k = ground arith

alive : AliveUntilRead two_answers
alive = ((λ k h. refl), ((λ k h. refl), tt))

-- The messages of two threads to a broker that has started them.
abbrev arrivals : List (Arrival String ℕ)
arrivals = map (to_arrival format_exc) two_answers

check_threads-refines_example :
    (terminated : List ℕ) × (check_processes
        (map to_process_arrival arrivals)
        (to_manager [] (start 2))
      ≡ Option.map (to_manager terminated) (check_threads arrivals (start 2)))
check_threads-refines_example = check_threads-refines arrivals [] (start 2)

abbrev dead : Answer
dead = record { id = 2; value = 40; alive = λ _. false }

in_time :
    AliveUntilRead
      (answers (λ j k. true) 0 (reached site thread_result 2 2 (1 ∷ []) schedule).ended)
unfolding run step initial thread_result read_step write_step process
in_time = ((λ k h. refl), ((λ k h. refl), tt))

reached-total_row_count_example :
    total_row_count site (λ j k. true) 2 (reached site thread_result 2 2 (1 ∷ []) schedule)
    ≡ some (ok 3)
reached-total_row_count_example =
    reached-total_row_count site thread_result rows 2 2 (1 ∷ []) site-IsFaithful (omega arith) told
      (λ j k. true) schedule (omega arith) ended in_time

first_ended : (reached site thread_result 2 2 (1 ∷ []) schedule).ended ≡ (1, ok 2) ∷ (0, ok 1) ∷ []
unfolding run step initial thread_result read_step write_step process
first_ended = refl

total_row_count-dead_example :
    total_row_count site (λ j k. false) 2 (reached site thread_result 2 2 (1 ∷ []) schedule)
    ≡ some (ok 2)
total_row_count-dead_example =
    total_row_count-dead site (λ j k. false) 2 1 2 ((0, ok 1) ∷ [])
      (reached site thread_result 2 2 (1 ∷ []) schedule) first_ended (omega arith) (λ k. refl)
