-- ===== src/Pubsub/Broker.antt =====
-- `MessageBroker.subscribe` and `unsubscribe` (pdip/integrator/pubsub/base/message_broker.py). The
-- dict of subscribers is an association list; `callable` and `same` are Python's tests on
-- callbacks, `same` being identity.
use text.Mathlib.Text.{◌==◌ as str_eq}
use pdip.Prelude.{
  Bool, true, false, not, ◌&&◌, ◌||◌, Option, none, some, List, [], ◌∷◌, ◌++◌, if◌then◌else◌,
}
use pdip.Prelude.Results.{Result, ok, err}
use pdip.Pubsub.Message.{Event, number, named, event_eq, is_truthy}

pub data ValueError : Type 0 where
  callback_must_be_callable event_cant_be_empty : ValueError

-- `event == ""`
unfoldable pub is_empty_event : Event → Bool
is_empty_event (number n) = false
is_empty_event (named t) = str_eq t ""

module _ {C : Type 0} where
  -- `self.subscribers[event]`, empty where the event is no key.
  unfoldable pub callbacks_of : Event → List (Event × List C) → List C
  callbacks_of e [] = []
  callbacks_of e ((k, cs) ∷ s) = let rest = callbacks_of e s in if event_eq k e then cs else rest

  unfoldable pub is_key : Event → List (Event × List C) → Bool
  is_key e [] = false
  is_key e ((k, cs) ∷ s) = event_eq k e || is_key e s

  -- `self.subscribers[event].append(callback)`
  unfoldable pub append_to : Event → C → List (Event × List C) → List (Event × List C)
  append_to e c [] = []
  append_to e c ((k, cs) ∷ s) =
      let rest = append_to e c s in if event_eq k e then (k, cs ++ c ∷ []) ∷ s else (k, cs) ∷ rest

  module _ (callable : C → Bool) (same : C → C → Bool) where
    unfoldable pub subscribe_to :
        Option Event → C → List (Event × List C) → Result ValueError (List (Event × List C))
    unfolding is_key append_to is_empty_event
    subscribe_to none c s = err event_cant_be_empty
    subscribe_to (some e) c s =
        if is_empty_event e
        then err event_cant_be_empty
        else ok (if is_key e s then append_to e c s else s ++ (e, c ∷ []) ∷ [])

    unfoldable pub subscribe :
        Option Event → C → List (Event × List C) → Result ValueError (List (Event × List C))
    unfolding subscribe_to
    subscribe e c s = if not (callable c) then err callback_must_be_callable else subscribe_to e c s

    -- `filter(lambda x: x is not callback, …)`
    unfoldable pub without : C → List C → List C
    without c [] = []
    without c (x ∷ xs) = let rest = without c xs in if same x c then rest else x ∷ rest

    unfoldable pub filter_at : Event → C → List (Event × List C) → List (Event × List C)
    unfolding without
    filter_at e c [] = []
    filter_at e c ((k, cs) ∷ s) =
        let rest = filter_at e c s in if event_eq k e then (k, without c cs) ∷ s else (k, cs) ∷ rest

    -- The new dict, and whether the warning was logged.
    unfoldable pub unsubscribe :
        Option Event → C → List (Event × List C) → List (Event × List C) × Bool
    unfolding is_key filter_at
    unsubscribe none c s = (s, true)
    unsubscribe (some e) c s =
        if is_truthy e && is_key e s then (filter_at e c s, false) else (s, true)
