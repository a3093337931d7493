-- ===== src/Integration/Adapters.antt =====
-- The factories and the adapters' `execute`
-- (pdip/integrator/integration/types/base/integration_adapter_factory.py,
-- sourcetotarget/strategies/factories/integration_execute_strategy_factory.py,
-- pdip/integrator/connection/factories, and the three adapters of types/).
use pdip.Prelude.{
  ℕ, Bool, true, false, Option, none, some, List, [], ◌∷◌, ◌++◌, String, map, ltb, if◌then◌else◌,
}
use pdip.Prelude.Results.{Result, ok, err, and_then}
use pdip.Parallel.Domain.{Error, other}
use pdip.Integration.Domain.{
  ConnectionType, sql, file, queue, big_data, web_service, in_memory, Integration,
  IntegrationConnection, OperationIntegration, Strategy, parallel_thread, single_process, Text,
  will_execute_on, source_has, log, of_integration, Message, task_message, event_log,
  event_execute_truncate, event_execute_target, event_execute_source,
}
use pdip.Integration.Messages.{
  Adapter, source_integration, target_integration, source_to_target_integration, attribute_error,
}

abbrev not_supported : Error
not_supported = other "NotSupportedFeatureException"

-- `integration.TargetConnections is None or integration.TargetConnections.ConnectionName is None`
unfoldable pub is_missing : Option IntegrationConnection → Bool
is_missing none = true
is_missing (some c) = elim c.connection_name [ none ↦ true | some _ ↦ false ]

-- IntegrationAdapterFactory.get, where the injected adapters are what their types say.
unfoldable pub get_adapter : Integration → Result Error Adapter
unfolding is_missing
get_adapter i =
    if is_missing i.target_connections
    then err (other "Target connection required for integration")
    else if is_missing i.source_connections
    then ok target_integration
    else ok source_to_target_integration

-- IntegrationSourceToTargetExecuteStrategyFactory.get
unfoldable pub get_strategy : Option ℕ → Bool → Result Error Strategy
get_strategy process_count true = err not_supported
get_strategy none false = ok single_process
get_strategy (some n) false = if ltb 1 n then ok parallel_thread else ok single_process

-- ConnectionTargetAdapterFactory.get_adapter and ConnectionSourceAdapterFactory.get_adapter, not
-- async, which differ in the text of the exception only: the adapter is named by its type.
unfoldable pub get_connection_adapter : ConnectionType → Result Error ConnectionType
get_connection_adapter sql = ok sql
get_connection_adapter file = err not_supported
get_connection_adapter queue = err not_supported
get_connection_adapter big_data = ok big_data
get_connection_adapter web_service = ok web_service
get_connection_adapter in_memory = err not_supported

unfoldable pub connection_adapter : Option IntegrationConnection → Result Error ConnectionType
unfolding get_connection_adapter
connection_adapter none = err attribute_error
connection_adapter (some c) = get_connection_adapter c.connection_type

-- What the adapters and the initializers of an installation do on their world `W`. A strategy
-- publishes log messages: `logs` are the texts of those that are published before it returns or
-- raises, with the exception of those that report one. The threads of parallelthread are not joined:
-- what they publish later is interleaved with the channel in `Lifecycle`.
pub record Installation (W : Type 0) : Type 0 where
  pub clear_data : ConnectionType → Integration → W → Result Error ℕ × W
  pub do_target_operation : ConnectionType → Integration → W → Result Error ℕ × W
  pub get_source_data_count : ConnectionType → Integration → W → Result Error ℕ × W
  pub execute_strategy : Strategy → OperationIntegration → W → Result Error ℕ × W
  pub logs : Strategy → OperationIntegration → W → List (String × Option Error)
  pub initialize_integration : OperationIntegration → W → Result Error OperationIntegration × W

-- The world and what stands on the channel.
pub record State (W : Type 0) : Type 0 where
  pub world : W
  pub channel : List Message

abbrev pub message_of : ℕ → OperationIntegration → Text → Message
message_of event oi t =
    let m = task_message event (of_integration oi) in
    record m { kwargs = record m.kwargs { message = some t } }

abbrev pub log_message : OperationIntegration → String × Option Error → Message
log_message oi (t, e) =
    let m = message_of event_log oi (log t) in
    record m { kwargs = record m.kwargs { exception = e } }

module _ {W : Type 0} where
  unfoldable pub publish : Message → State W → Result Error (Unit {0}) × State W
  publish m s = (ok tt, record s { channel = s.channel ++ m ∷ [] })

  unfoldable pub publish_count :
      ℕ → OperationIntegration → ℕ → State W → Result Error (Unit {0}) × State W
  unfolding publish
  publish_count event oi n s =
      let m = task_message event (of_integration oi) in
      publish (record m { kwargs = record m.kwargs { row_count = some n } }) s

  -- A call that publishes nothing.
  unfoldable pub call : {A : Type 0} → (W → Result Error A × W) → State W → Result Error A × State W
  call f s = let (r, w) = f s.world in (r, record s { world = w })

  -- A computation that touches neither.
  unfoldable pub lift : {A : Type 0} → Result Error A → State W → Result Error A × State W
  lift r s = (r, s)

module _ {W : Type 0} (site : Installation W) where
  unfoldable pub truncate :
      Bool → ConnectionType → OperationIntegration → State W → Result Error (Unit {0}) × State W
  unfolding call and_then publish_count
  truncate false t oi s = (ok tt, s)
  truncate true t oi s =
      and_then (call (site.clear_data t oi.integration) s)
        (λ n s. publish_count event_execute_truncate oi n s)

  -- `execute_integration_strategy.execute(…)`, with the logs up to its end.
  unfoldable pub run_strategy : Strategy → OperationIntegration → State W → Result Error ℕ × State W
  run_strategy strategy oi s =
      let (r, w) = site.execute_strategy strategy oi s.world in
      (
        r,
        record {
          world = w;
          channel = s.channel ++ map (log_message oi) (site.logs strategy oi s.world);
        },
      )

  -- SourceToTargetIntegration.execute
  unfoldable pub execute_source_to_target :
      OperationIntegration → State W → Result Error ℕ × State W
  unfolding lift and_then truncate run_strategy publish publish_count
  execute_source_to_target oi s =
      and_then (lift (connection_adapter oi.integration.target_connections) s) (λ t s.
        and_then (truncate oi.integration.is_target_truncate t oi s) (λ _ s.
          and_then (lift (get_strategy oi.process_count false) s) (λ strategy s.
            and_then
              (publish
                (message_of event_log oi
                  (will_execute_on oi.order strategy oi.process_count oi.limit))
                s)
              (λ _ s.
                and_then (run_strategy strategy oi s) (λ n s.
                  and_then (publish_count event_execute_source oi n s) (λ _ s. (ok n, s)))))))

  -- TargetIntegration.execute
  unfoldable pub execute_target : OperationIntegration → State W → Result Error ℕ × State W
  unfolding lift and_then truncate call publish_count
  execute_target oi s =
      and_then (lift (connection_adapter oi.integration.target_connections) s) (λ t s.
        and_then (truncate oi.integration.is_target_truncate t oi s) (λ _ s.
          and_then (call (site.do_target_operation t oi.integration) s)
            (λ n s. and_then (publish_count event_execute_target oi n s) (λ _ s. (ok n, s)))))

  -- SourceIntegration.execute
  unfoldable pub execute_source : OperationIntegration → State W → Result Error ℕ × State W
  unfolding lift and_then call publish
  execute_source oi s =
      and_then (lift (connection_adapter oi.integration.source_connections) s) (λ t s.
        and_then (call (site.get_source_data_count t oi.integration) s) (λ n s.
          and_then (publish (message_of event_log oi (source_has oi.order n)) s)
            (λ _ s. (ok n, s))))

  unfoldable pub execute : Adapter → OperationIntegration → State W → Result Error ℕ × State W
  unfolding execute_source_to_target execute_target execute_source
  execute source_integration oi s = execute_source oi s
  execute target_integration oi s = execute_target oi s
  execute source_to_target_integration oi s = execute_source_to_target oi s
