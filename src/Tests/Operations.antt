-- ===== src/Tests/Operations.antt =====
-- An operation of two integrations over a world that is the target table.
use pdip.Prelude.{
  ℕ, ◌≡◌, refl, String, Bool, Option, true, false, none, some, List, [], ◌∷◌, ◌++◌, map, length,
  drop, count,
}
use pdip.Prelude.Results.{Result, ok}
use pdip.Parallel.Domain.{Error}
use pdip.Pubsub.Message.{Event, number}
use pdip.Pubsub.Channel.{interleave}
use pdip.Pubsub.Threads.{finished, forward, listen}
use pdip.Pubsub.Delivery.{all_calls}
use pdip.Integration.Domain.{
  ConnectionType, sql, file, IntegrationConnection, OperationIntegration, OperationBase, Kwargs,
  Message,
}
use pdip.Integration.Transaction.{RepositoryProvider}
use pdip.Integration.Adapters.{Installation, State}
use pdip.Integration.Execution.{start_execution, start, start_undecorated, operation_finished}
use pdip.Integration.Lifecycle.{error_of, is_end, late_logs, start-EndsOnce, start-delivers}
use pdip.Integration.Order.{RunsInOrder, start_execution-RunsInOrder}

abbrev connection : ConnectionType → IntegrationConnection
connection t = record {
  connection_name = some "db";
  connection_type = t;
  sql_object = some ("public", "rows");
  big_data_object = none;
  web_service_method = none;
  file_path = none;
  queue_topic = none;
}

abbrev integration : ConnectionType → ℕ → OperationIntegration
integration t order = record {
  name = "copy";
  order = order;
  limit = some 2;
  process_count = none;
  integration = record {
    source_connections = some (connection sql);
    target_connections = some (connection t);
    is_target_truncate = true;
  };
}

-- The second integration has a target that is not wired.
abbrev integrations : List OperationIntegration
integrations = integration sql 1 ∷ integration file 2 ∷ integration sql 3 ∷ []

abbrev operation : OperationBase
operation = record { name = "night"; integrations = integrations }

abbrev site : Installation (List ℕ)
site = record {
  clear_data = λ t i w. (ok (length w), []);
  do_target_operation = λ t i w. (ok 0, w);
  get_source_data_count = λ t i w. (ok 3, w);
  execute_strategy = λ strategy oi w. (ok 3, w ++ 7 ∷ 8 ∷ 9 ∷ []);
  logs = λ strategy oi w. ("read", none) ∷ [];
  initialize_integration = λ oi w. (ok oi, w);
}

abbrev elapsed : OperationIntegration → List ℕ → String
elapsed oi w = "1.5"

abbrev initialize : OperationBase → List ℕ → Result Error OperationBase × List ℕ
initialize o w = (ok o, w)

abbrev fresh : State (List ℕ)
fresh = record { world = 1 ∷ []; channel = [] }

abbrev provider : RepositoryProvider Error (List ℕ)
provider = record { commit = λ w. (ok tt, w); rollback = λ w. (ok tt, w); close = λ w. (ok tt, w) }

-- A thread of a strategy that has been left running, and its two messages; the first of them
-- comes before the end of the operation.
abbrev schedule : List Bool
schedule = true ∷ false ∷ []

abbrev late : List (OperationIntegration × (String × Option Error))
late =
    (integration sql 1, ("Page 2 written", none))
    ∷ (integration sql 1, ("Page 3 written", none))
    ∷ []

abbrev own : List Message
own = (start site elapsed provider initialize operation fresh).1.channel

start-EndsOnce_example :
    (operation' : OperationBase) × (before : List Message) × (k : ℕ) × (interleave schedule own
        (late_logs site elapsed late)
      ≡ before
        ++ operation_finished operation'
            (error_of (start_undecorated site elapsed initialize operation fresh).0)
          ∷ drop k (late_logs site elapsed late))
    × (count is_end before ≡ 0)
start-EndsOnce_example =
    start-EndsOnce site elapsed provider initialize operation fresh schedule late refl

abbrev callback : ℕ → Kwargs → Result ℕ (Unit {0})
callback c k = ok tt

abbrev subscribers : List (Event × List ℕ)
subscribers = (number 3, 1 ∷ []) ∷ (number 0, 2 ∷ []) ∷ []

start-delivers_example :
    (channel : List Message) × (delivered : List Message) × (k : ℕ) × (channel
      ≡ interleave schedule own (late_logs site elapsed late))
    × (channel ≡ delivered ++ drop k (late_logs site elapsed late))
    × ((forward (map some channel)).at ≡ finished)
    × ((listen callback subscribers (map some (forward (map some channel)).sent)).at ≡ finished)
    × ((listen callback subscribers (map some (forward (map some channel)).sent)).calls
        ≡ all_calls callback subscribers delivered)
start-delivers_example =
    start-delivers site elapsed provider initialize operation fresh schedule late callback
      subscribers refl (λ c k. refl)

start_execution-RunsInOrder_example :
    RunsInOrder site elapsed integrations fresh (start_execution site elapsed integrations fresh)
start_execution-RunsInOrder_example = start_execution-RunsInOrder site elapsed integrations fresh
