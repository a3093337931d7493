-- ===== src/Integration/Execution.antt =====
-- `IntegrationExecution.start` and `OperationExecution.start`
-- (pdip/integrator/integration/base/integration_execution.py,
-- pdip/integrator/operation/base/operation_execution.py).
use pdip.Prelude.{ℕ, String, true, Option, none, some, List, [], ◌∷◌}
use pdip.Prelude.Results.{Result, ok, err, and_then}
use pdip.Parallel.Domain.{Error}
use pdip.Integration.Domain.{
  OperationIntegration, OperationBase, Text, initialized, said, said_in, of_operation, Message,
  task_message, event_integration_initialized, event_integration_started,
  event_integration_finished, event_execution_initialized, event_execution_started,
  event_execution_finished,
}
use pdip.Integration.Transaction.{RepositoryProvider, transactionhandler}
use pdip.Integration.Messages.{Adapter, get_start_message, get_finish_message, get_error_message}
use pdip.Integration.Adapters.{
  Installation, State, publish, message_of, call, lift, get_adapter, execute,
}

-- The last message of an integration that raised, and that of one that did not.
abbrev pub failed_message : OperationIntegration → String → Error → Message
failed_message oi t e =
    let m = message_of event_integration_finished oi (said t) in
    record m { kwargs = record m.kwargs { data_count = some 0; exception = some e } }

abbrev pub finished_message : OperationIntegration → Text → ℕ → Message
finished_message oi t n =
    let m = message_of event_integration_finished oi t in
    record m { kwargs = record m.kwargs { data_count = some n } }

-- The messages of an operation.
abbrev pub operation_finished : OperationBase → Option Error → Message
operation_finished operation e =
    let m = task_message event_execution_finished (of_operation operation) in
    record m { is_finished = true; kwargs = record m.kwargs { exception = e } }

-- `elapsed` is the text of the time that an integration took.
module _ {W : Type 0} (site : Installation W) (elapsed : OperationIntegration → W → String) where
  -- The `except` clause: the message, and the exception again, unless the text cannot be made.
  unfoldable pub on_error :
      Adapter → OperationIntegration → Error → State W → Result Error (Unit {0}) × State W
  unfolding lift and_then publish
  on_error adapter oi e s =
      and_then (lift (get_error_message adapter oi.integration) s)
        (λ t s. and_then (publish (failed_message oi t e) s) (λ _ s. (err e, s)))

  unfoldable pub catch :
      Adapter
      → OperationIntegration
      → Result Error (Unit {0}) × State W
      → Result Error (Unit {0}) × State W
  unfolding on_error
  catch adapter oi (ok u, s) = (ok u, s)
  catch adapter oi (err e, s) = on_error adapter oi e s

  -- The `try` clause after the initializer.
  unfoldable pub body : Adapter → OperationIntegration → State W → Result Error (Unit {0}) × State W
  unfolding lift and_then publish
  body adapter oi s =
      and_then (publish (message_of event_integration_initialized oi initialized) s) (λ _ s.
        and_then (lift (get_start_message adapter oi.integration) s) (λ t s.
          and_then (publish (message_of event_integration_started oi (said t)) s) (λ _ s.
            and_then (execute site adapter oi s) (λ n s.
              and_then (lift (get_finish_message adapter oi.integration) s)
                (λ t s. publish (finished_message oi (said_in t (elapsed oi s.world)) n) s)))))

  -- `operation_integration` in the `except` clause is what the initializer returned, or the
  -- argument where it raised.
  unfoldable pub initialized_with :
      Adapter
      → OperationIntegration
      → Result Error OperationIntegration × State W
      → Result Error (Unit {0}) × State W
  unfolding body catch on_error
  initialized_with adapter oi (ok oi', s) = catch adapter oi' (body adapter oi' s)
  initialized_with adapter oi (err e, s) = on_error adapter oi e s

  -- IntegrationExecution.start
  unfoldable pub start_integration :
      OperationIntegration → State W → Result Error (Unit {0}) × State W
  unfolding lift and_then call initialized_with
  start_integration oi s =
      and_then (lift (get_adapter oi.integration) s)
        (λ adapter s. initialized_with adapter oi (call (site.initialize_integration oi) s))

  -- OperationExecution.__start_execution
  unfoldable pub start_execution :
      List OperationIntegration → State W → Result Error (Unit {0}) × State W
  unfolding and_then start_integration
  start_execution [] s = (ok tt, s)
  start_execution (oi ∷ ois) s = and_then (start_integration oi s) (λ _ s. start_execution ois s)

  unfoldable pub end_operation :
      OperationBase → Result Error (Unit {0}) × State W → Result Error (Unit {0}) × State W
  unfolding publish and_then
  end_operation operation (ok u, s) = publish (operation_finished operation none) s
  end_operation operation (err e, s) =
      and_then (publish (operation_finished operation (some e)) s) (λ _ s. (err e, s))

  unfoldable pub run_operation : OperationBase → State W → Result Error (Unit {0}) × State W
  unfolding publish and_then start_execution
  run_operation operation s =
      and_then (publish (task_message event_execution_initialized (of_operation operation)) s)
        (λ _ s.
          and_then (publish (task_message event_execution_started (of_operation operation)) s)
            (λ _ s. start_execution operation.integrations s))

  unfoldable pub operation_initialized_with :
      OperationBase → Result Error OperationBase × State W → Result Error (Unit {0}) × State W
  unfolding end_operation run_operation
  operation_initialized_with operation (ok operation', s) =
      end_operation operation' (run_operation operation' s)
  operation_initialized_with operation (err e, s) = end_operation operation (err e, s)

  -- The function under the decorator.
  unfoldable pub start_undecorated :
      (OperationBase → W → Result Error OperationBase × W)
      → OperationBase
      → State W
      → Result Error (Unit {0}) × State W
  unfolding call operation_initialized_with
  start_undecorated initialize operation s =
      operation_initialized_with operation (call (initialize operation) s)

  -- A provider whose calls publish nothing.
  unfoldable pub on_state : RepositoryProvider Error W → RepositoryProvider Error (State W)
  unfolding call
  on_state provider = record {
    commit = call provider.commit;
    rollback = call provider.rollback;
    close = call provider.close;
  }

  -- OperationExecution.start
  unfoldable pub start :
      RepositoryProvider Error W
      → (OperationBase → W → Result Error OperationBase × W)
      → OperationBase
      → State W
      → Result Error (Unit {0}) × State W
  unfolding transactionhandler start_undecorated on_state
  start provider initialize operation s =
      transactionhandler (on_state provider) (start_undecorated initialize operation) s
