-- ===== src/Pubsub/Threads.antt =====
-- The two threads of the broker: `MessageBrokerWorker.run` and `EventListener.run`
-- (pdip/integrator/pubsub/base/message_broker_worker.py, event_listener.py) over the messages that
-- their channel gives them. A channel is a queue; None on a channel ends its reader.
use pdip.Prelude.{Bool, true, false, Option, none, some, List, [], ◌∷◌, ◌++◌, if◌then◌else◌}
use pdip.Prelude.Results.{Result, ok, err}
use pdip.Pubsub.Message.{Event, TaskMessage}
use pdip.Pubsub.Broker.{callbacks_of, is_key}

-- Why a thread is where it is: it has read all that is there, or it has ended.
pub data End : Type 0 where
  blocked returned finished failed : End

-- What the worker puts on the message channel, and where it then stands.
pub record Forwarded (K : Type 0) : Type 0 where
  pub sent : List (TaskMessage K)
  pub at : End

-- The calls of the listener in order, the events without subscribers that it warned of, and where
-- it then stands.
pub record Handled (C K : Type 0) : Type 0 where
  pub calls : List (C × K)
  pub warnings : List (Option Event)
  pub at : End

module _ {K : Type 0} where
  -- MessageBrokerWorker.run
  unfoldable pub forward : List (Option (TaskMessage K)) → Forwarded K
  forward [] = record { sent = []; at = blocked }
  forward (none ∷ rest) = record { sent = []; at = returned }
  forward (some m ∷ rest) =
      let later = forward rest in
      if m.is_finished
      then record { sent = m ∷ []; at = finished }
      else record { sent = m ∷ later.sent; at = later.at }

module _ {C K E : Type 0} (call : C → K → Result E (Unit {0})) where
  -- The loop over the callbacks: the calls made, and whether one raised.
  unfoldable pub call_all : K → List C → List (C × K) × Bool
  call_all kwargs [] = ([], false)
  call_all kwargs (c ∷ cs) =
      let (later, raised) = call_all kwargs cs in
      elim (call c kwargs) [
        | ok _ ↦ ((c, kwargs) ∷ later, raised)
        | err e ↦ ((c, kwargs) ∷ [], true)
      ]

  -- `task.event in self.subscribers.keys()` and the callbacks there.
  unfoldable pub subscribed : Option Event → List (Event × List C) → Option (List C)
  subscribed none s = none
  subscribed (some e) s = if is_key e s then some (callbacks_of e s) else none

  unfoldable pub after_call : List (C × K) × Bool → Bool → Handled C K → Handled C K
  after_call (calls, true) is_finished later = record { calls = calls; warnings = []; at = failed }
  after_call (calls, false) true later = record { calls = calls; warnings = []; at = finished }
  after_call (calls, false) false later = record {
    calls = calls ++ later.calls;
    warnings = later.warnings;
    at = later.at;
  }

  unfoldable pub after_warning : Option Event → Bool → Handled C K → Handled C K
  after_warning e true later = record { calls = []; warnings = e ∷ []; at = finished }
  after_warning e false later = record {
    calls = later.calls;
    warnings = e ∷ later.warnings;
    at = later.at;
  }

  -- The work on one message; `later` is what the listener does with the messages behind it.
  unfoldable pub handle : TaskMessage K → Option (List C) → Handled C K → Handled C K
  unfolding call_all after_call after_warning
  handle m none later = after_warning m.event m.is_finished later
  handle m (some cs) later = after_call (call_all m.kwargs cs) m.is_finished later

  -- EventListener.run
  unfoldable pub listen : List (Event × List C) → List (Option (TaskMessage K)) → Handled C K
  unfolding subscribed handle
  listen s [] = record { calls = []; warnings = []; at = blocked }
  listen s (none ∷ rest) = record { calls = []; warnings = []; at = returned }
  listen s (some m ∷ rest) = let later = listen s rest in handle m (subscribed m.event s) later
