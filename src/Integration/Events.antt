-- ===== src/Integration/Events.antt =====
-- The default listeners of an integrator (pdip/integrator/initializer/integrator/
-- default_integrator_initializer.py, pdip/integrator/event/base/
-- default_integrator_event_manager.py).
use pdip.Prelude.{ℕ, Bool, true, Option, none, some, List, String}
use pdip.Prelude.Results.{Result, ok, err, ◌>>=◌}
use pdip.Parallel.Domain.{Error, other}
use pdip.Sql.Dialect.{◌<>◌}
use pdip.Pubsub.Message.{Event, number}
use pdip.Pubsub.Broker.{ValueError, subscribe}
use pdip.Integration.Domain.{
  Subject, of_operation, of_integration, event_log, event_execution_initialized,
  event_execution_started, event_execution_finished, event_integration_initialized,
  event_integration_started, event_integration_finished, event_execute_truncate,
  event_execute_target, event_execute_source,
}

-- The methods of the event manager that are subscribed.
pub data Listener : Type 0 where
  log initialize start finish integration_initialize integration_start integration_finish : Listener
  integration_target_truncate integration_execute_source integration_execute_target : Listener

-- What a method logs.
pub data Logged : Type 0 where
  info : String → Logged
  exception : Error → String → Logged

abbrev pub Subscribers : Type 0
Subscribers = List (Event × List Listener)

-- Bound methods are callable; `same` is their identity.
module _ (same : Listener → Listener → Bool) where
  abbrev pub add : ℕ → Listener → Subscribers → Result ValueError Subscribers
  add event listener s = subscribe (λ c. true) same (some (number event)) listener s

  unfoldable pub register_default_event_listeners : Subscribers → Result ValueError Subscribers
  unfolding subscribe
  register_default_event_listeners s = add event_log log s >>= λ s0.
      add event_execution_initialized initialize s0 >>= λ s1.
      add event_execution_started start s1 >>= λ s2.
      add event_execution_finished finish s2 >>= λ s3.
      add event_integration_initialized integration_initialize s3 >>= λ s4.
      add event_integration_started integration_start s4 >>= λ s5.
      add event_integration_finished integration_finish s5 >>= λ s6.
      add event_execute_truncate integration_target_truncate s6 >>= λ s7.
      add event_execute_source integration_execute_source s7 >>= λ s8.
      add event_execute_target integration_execute_target s8

-- The text of a subject; an operation has no order.
unfoldable pub name_of : Subject → String
name_of (of_operation o) = o.name
name_of (of_integration i) = i.name

unfoldable pub logged : Option Error → String → Logged
logged none text = info text
logged (some e) text = exception e text

-- `str` writes a number.
module _ (str : ℕ → String) where
  -- `f'{data.Order} - {data.Name} - {message}'`
  unfoldable pub ordered : Subject → String → Result Error String
  ordered (of_operation o) message = err (other "AttributeError")
  ordered (of_integration i) message = ok (str i.order <> " - " <> i.name <> " - " <> message)

  unfoldable pub log_text : Subject → String → String
  log_text (of_operation o) message = o.name <> " - " <> message
  log_text (of_integration i) message = str i.order <> " - " <> i.name <> " - " <> message

  unfoldable pub on_log : Subject → String → Option Error → Logged
  unfolding log_text logged
  on_log subject message e = logged e (log_text subject message)

  unfoldable pub on_initialize : Subject → Logged
  unfolding name_of
  on_initialize subject = info (name_of subject <> " initialized.")

  unfoldable pub on_start : Subject → Logged
  unfolding name_of
  on_start subject = info (name_of subject <> " started.")

  unfoldable pub on_finish : Subject → Option Error → Logged
  unfolding name_of
  on_finish subject none = info (name_of subject <> " finished.")
  on_finish subject (some e) = exception e (name_of subject <> " finished with error.")

  -- integration_initialize and integration_start
  unfoldable pub on_integration : Subject → String → Result Error Logged
  unfolding ordered
  on_integration subject message = ordered subject message >>= λ text. ok (info text)

  unfoldable pub on_integration_finish : Subject → String → Option Error → Result Error Logged
  unfolding ordered logged
  on_integration_finish subject message e = ordered subject message >>= λ text. ok (logged e text)

  unfoldable pub on_target_truncate : Subject → ℕ → Result Error Logged
  unfolding ordered
  on_target_truncate subject row_count =
      ordered subject ("Target truncate finished. (Affected Row Count:" <> str row_count <> ")")
      >>= λ text. ok (info text)

  unfoldable pub on_execute_source : Subject → ℕ → Result Error Logged
  unfolding ordered
  on_execute_source subject row_count =
      ordered subject ("Source integration completed. (Source Data Count:" <> str row_count <> ")")
      >>= λ text. ok (info text)

  -- The sleep of two seconds is left out.
  unfoldable pub on_execute_target : Subject → ℕ → Result Error Logged
  unfolding ordered
  on_execute_target subject row_count =
      ordered subject ("Target integration completed. (Affected Row Count:" <> str row_count <> ")")
      >>= λ text. ok (info text)
