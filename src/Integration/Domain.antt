-- ===== src/Integration/Domain.antt =====
-- The parts of an operation that its execution reads
-- (pdip/integrator/integration/domain/base/integration.py, pdip/integrator/operation/domain/
-- operation.py), and the messages that it publishes.
use pdip.Prelude.{ℕ, String, Bool, Option, none, some, List}
use pdip.Parallel.Domain.{Error}
use pdip.Pubsub.Message.{number, TaskMessage}

-- pdip/integrator/connection/domain/enums/connection_types.py
pub data ConnectionType : Type 0 where
  sql file queue big_data web_service in_memory : ConnectionType

-- The details of a connection that the messages name; a pair is schema and object, or folder and
-- file.
pub record IntegrationConnection : Type 0 where
  pub connection_name : Option String
  pub connection_type : ConnectionType
  pub sql_object : Option (String × String)
  pub big_data_object : Option (String × String)
  pub web_service_method : Option String
  pub file_path : Option (String × String)
  pub queue_topic : Option String

pub record Integration : Type 0 where
  pub source_connections : Option IntegrationConnection
  pub target_connections : Option IntegrationConnection
  pub is_target_truncate : Bool

pub record OperationIntegration : Type 0 where
  pub name : String
  pub order : ℕ
  pub limit : Option ℕ
  pub process_count : Option ℕ
  pub integration : Integration

-- The strategies that the factory can return.
pub data Strategy : Type 0 where
  parallel_thread single_process : Strategy

pub record OperationBase : Type 0 where
  pub name : String
  pub integrations : List OperationIntegration

-- What the `message` of a published message says, one constructor for each text; `said` is a text
-- of the adapter, and `said_in` one with the time that the integration took.
pub data Text : Type 0 where
  initialized integration_getting_error : Text
  said : String → Text
  said_in : String → String → Text
  will_execute_on : ℕ → Strategy → Option ℕ → Option ℕ → Text
  source_has : ℕ → ℕ → Text
  log : String → Text

pub data Subject : Type 0 where
  of_operation : OperationBase → Subject
  of_integration : OperationIntegration → Subject

-- The keyword arguments of the published messages, with the fields that a message leaves out at
-- none; `subject` is the argument `data`.
pub record Kwargs : Type 0 where
  pub subject : Subject
  pub message : Option Text
  pub row_count : Option ℕ
  pub data_count : Option ℕ
  pub exception : Option Error

abbrev pub Message : Type 0
Message = TaskMessage Kwargs

-- TaskMessage(event=…, kwargs={'data': …}), with `is_finished` at its default.
abbrev pub task_message : ℕ → Subject → Message
task_message event subject = record {
  event = some (number event);
  is_finished = Bool.false;
  kwargs = record {
    subject = subject;
    message = none;
    row_count = none;
    data_count = none;
    exception = none;
  };
}

-- The numbers of pdip/integrator/domain/enums/events.py.
abbrev pub event_log : ℕ
event_log = 0

abbrev pub event_execution_initialized : ℕ
event_execution_initialized = 1

abbrev pub event_execution_started : ℕ
event_execution_started = 2

abbrev pub event_execution_finished : ℕ
event_execution_finished = 3

abbrev pub event_integration_initialized : ℕ
event_integration_initialized = 4

abbrev pub event_integration_started : ℕ
event_integration_started = 5

abbrev pub event_execute_truncate : ℕ
event_execute_truncate = 7

abbrev pub event_execute_target : ℕ
event_execute_target = 8

abbrev pub event_execute_source : ℕ
event_execute_source = 9

abbrev pub event_integration_finished : ℕ
event_integration_finished = 10
