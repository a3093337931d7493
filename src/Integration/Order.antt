-- ===== src/Integration/Order.antt =====
-- Which integrations of an operation are executed.
use pdip.Prelude.{◌≡◌, ◌⊎◌, refl, ap, String, List, [], ◌∷◌, ◌++◌}
use pdip.Prelude.Results.{Result, ok, err, and_then}
use pdip.Parallel.Domain.{Error}
use pdip.Integration.Domain.{OperationIntegration}
use pdip.Integration.Adapters.{Installation, State}
use pdip.Integration.Execution.{start_integration, start_execution}
use pdip.Integration.Quiet.{Quiet}
use pdip.Integration.Outcome.{is_outcome, Finished, Failed, Outcome, start_integration-Outcome}

module _ {W : Type 0} (site : Installation W) (elapsed : OperationIntegration → W → String) where
  -- Each of the integrations is executed without an exception, one from the state that the one
  -- before leaves, and what it adds to the channel ends with the message of its end.
  abbrev pub AllRun : List OperationIntegration → State W → State W → Type 0
  AllRun [] s s' = s ≡ s'
  AllRun (oi ∷ ois) s s' =
      (between : State W) × (start_integration site elapsed oi s ≡ (ok tt, between))
      × Finished site elapsed s between
      × AllRun ois between s'

  abbrev pub RunsInOrder :
      List OperationIntegration → State W → Result Error (Unit {0}) × State W → Type 0
  RunsInOrder ois s (ok u, s') = AllRun ois s s'
  RunsInOrder ois s (err e, s') =
      (done : List OperationIntegration) × (oi : OperationIntegration) × (rest : List
        OperationIntegration)
      × (between : State W) × (ois ≡ done ++ oi ∷ rest)
      × AllRun done s between
      × (start_integration site elapsed oi between ≡ (err e, s'))
      × (Quiet is_outcome between s' ⊎ Failed site elapsed e between s')

  RunsInOrder-step :
      (oi : OperationIntegration) (ois : List OperationIntegration) (s between : State W)
      (r : Result Error (Unit {0}) × State W)
      → start_integration site elapsed oi s ≡ (ok tt, between)
      → Finished site elapsed s between
      → RunsInOrder ois between r
      → RunsInOrder (oi ∷ ois) s r
  RunsInOrder-step oi ois s between (ok u, s') h end later = (between, h, end, later)
  RunsInOrder-step oi ois s between (err e, s') h end
        (done, failing, rest, s1, split, all, here, last) =
      (oi ∷ done, failing, rest, s1, ap (λ l. oi ∷ l) split, (between, h, end, all), here, last)

  RunsInOrder-then :
      (oi : OperationIntegration) (ois : List OperationIntegration) (s : State W)
      (r : Result Error (Unit {0}) × State W)
      → start_integration site elapsed oi s ≡ r
      → Outcome site elapsed s r
      → ((s' : State W) → RunsInOrder ois s' (start_execution site elapsed ois s'))
      → RunsInOrder (oi ∷ ois) s (and_then r (λ _ s'. start_execution site elapsed ois s'))
  unfolding and_then
  RunsInOrder-then oi ois s (ok u, s1) h end later =
      RunsInOrder-step oi ois s s1 (start_execution site elapsed ois s1) h end (later s1)
  RunsInOrder-then oi ois s (err e, s1) h end later = ([], oi, ois, s, refl, refl, h, end)

  -- The execution of an operation's integrations returns where every one of them, in their order and
  -- each from the state that the one before leaves, is executed without an exception; otherwise its
  -- exception and its state are those of the first integration that raises, after all before it were
  -- executed without one, and no later one is executed. Of the messages that an integration publishes
  -- itself, one that is executed without an exception leaves exactly one of the event of its end, the
  -- last one, with a number of rows; the one that raises leaves none of that event or exactly one,
  -- the last one, with 0 and the exception.
  pub start_execution-RunsInOrder :
      (ois : List OperationIntegration) (s : State W)
      → RunsInOrder ois s (start_execution site elapsed ois s)
  unfolding start_execution
  start_execution-RunsInOrder [] s = refl
  start_execution-RunsInOrder (oi ∷ ois) s =
      RunsInOrder-then oi ois s (start_integration site elapsed oi s) refl
        (start_integration-Outcome site elapsed oi s) (λ s'. start_execution-RunsInOrder ois s')
