-- ===== src/Tests/Processes.antt =====
-- Two processes that return in the other order.
use pdip.Prelude.{
  ℕ, ◌≡◌, refl, String, true, false, some, List, [], ◌∷◌, map, arith, leb, ◌&&◌, if◌then◌else◌,
}
use pdip.Prelude.Results.{ok, err}
use pdip.Processing.Totals.{execute_data}
use pdip.Processing.Tasks.{Answer, answers_of, AliveUntilRead, to_arrival}
use pdip.Processing.Failure.{failure, execute_data-raises}
use pdip.Processing.Collect.{execute_data-sum}

abbrev format_exc : String → String
format_exc e = e

abbrev answers : List Answer
answers =
    record { id = 2; value = 40; alive = λ _. true }
    ∷ record { id = 1; value = 60; alive = λ _. true }
    ∷ []

each : (k : ℕ) → answers_of k answers ≡ (if leb 1 k && leb k 2 then 1 else 0)
each k = ground arith

alive : AliveUntilRead answers
alive = ((λ k h. refl), ((λ k h. refl), tt))

execute_data-sum_example : execute_data 2 (map (to_arrival format_exc) answers) ≡ some (ok 100)
execute_data-sum_example = execute_data-sum format_exc 2 answers (omega arith) refl each alive

execute_data-raises_example :
    execute_data 2 (
      to_arrival format_exc (record { id = 1; value = 60; alive = λ _. true })
      ∷ failure format_exc 2 "lost" (λ _. false)
      ∷ [])
    ≡ some (err "lost")
execute_data-raises_example =
    execute_data-raises format_exc 2 2 "lost" (λ _. false)
      (record { id = 1; value = 60; alive = λ _. true } ∷ []) [] (omega arith) (omega arith)
      ((λ e. absurd (omega (arith, e))), refl, tt)
