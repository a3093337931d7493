-- ===== src/Tests/Messages.antt =====
-- Subscribers that are named by numbers.
use pdip.Prelude.{
  ℕ, ◌≡◌, refl, Bool, true, false, some, List, [], ◌∷◌, ◌++◌, map, ◌==◌, if◌then◌else◌,
}
use pdip.Prelude.Results.{Result, ok, err}
use pdip.Pubsub.Message.{Event, number, event_eq, TaskMessage}
use pdip.Pubsub.Broker.{
  callbacks_of, is_key, append_to, is_empty_event, subscribe, subscribe_to, unsubscribe,
}
use pdip.Pubsub.Threads.{finished, failed, forward, subscribed, listen}
use pdip.Pubsub.Delivery.{all_calls, delivers}
use pdip.Pubsub.Failing.{listen-raises}
use pdip.Pubsub.Subscriptions.{callbacks_of-subscribe, callbacks_of-unsubscribe}

abbrev callable : ℕ → Bool
callable _ = true

abbrev same : ℕ → ℕ → Bool
same a b = a == b

abbrev subscribers : List (Event × List ℕ)
subscribers = (number 3, 11 ∷ []) ∷ (number 0, 12 ∷ 13 ∷ []) ∷ []

abbrev quiet : ℕ → ℕ → Result ℕ (Unit {0})
quiet c k = ok tt

abbrev message : ℕ → Bool → ℕ → TaskMessage ℕ
message e f k = record { event = some (number e); is_finished = f; kwargs = k }

delivers_example :
    ((forward (
        map some (message 0 false 5 ∷ [])
        ++ some (message 3 true 6) ∷ some (message 0 false 7) ∷ [])).at
      ≡ finished)
    × ((listen quiet subscribers (
          map some
            (forward (
              map some (message 0 false 5 ∷ [])
              ++ some (message 3 true 6) ∷ some (message 0 false 7) ∷ [])).sent)).at
        ≡ finished)
    × ((listen quiet subscribers (
          map some
            (forward (
              map some (message 0 false 5 ∷ [])
              ++ some (message 3 true 6) ∷ some (message 0 false 7) ∷ [])).sent)).calls
        ≡ all_calls quiet subscribers (message 0 false 5 ∷ message 3 true 6 ∷ []))
delivers_example =
    delivers quiet (λ c k. refl) subscribers (message 0 false 5 ∷ []) (message 3 true 6)
      (some (message 0 false 7) ∷ []) refl refl

abbrev raising : ℕ → ℕ → Result ℕ (Unit {0})
raising c k = if c == 13 then err k else ok tt

listen-raises_example :
    ((listen raising subscribers (
        map some (message 3 false 4 ∷ [])
        ++ some (message 0 false 5) ∷ some (message 3 true 6) ∷ [])).at
      ≡ failed)
    × ((listen raising subscribers (
          map some (message 3 false 4 ∷ [])
          ++ some (message 0 false 5) ∷ some (message 3 true 6) ∷ [])).calls
        ≡ (11, 4) ∷ (12, 5) ∷ (13, 5) ∷ [])
unfolding subscribed callbacks_of event_eq is_key
listen-raises_example =
    listen-raises raising subscribers (message 3 false 4 ∷ []) (message 0 false 5) (12 ∷ []) [] 13 5
      (some (message 3 true 6) ∷ []) (refl, (refl, tt), tt) refl (refl, tt) refl

callbacks_of-unsubscribe_example :
    callbacks_of (number 3) (unsubscribe callable same (some (number 3)) 11 subscribers).0 ≡ []
unfolding callbacks_of event_eq
callbacks_of-unsubscribe_example =
    callbacks_of-unsubscribe callable same (number 3) (number 3) 11 subscribers

callbacks_of-subscribe_example :
    callbacks_of {C = ℕ} (number 0) ((number 3, 11 ∷ []) ∷ (number 0, 12 ∷ 13 ∷ 14 ∷ []) ∷ [])
    ≡ 12 ∷ 13 ∷ 14 ∷ []
unfolding callbacks_of event_eq subscribe subscribe_to is_key append_to is_empty_event
callbacks_of-subscribe_example =
    callbacks_of-subscribe callable same (number 0) (number 0) 14 subscribers
      ((number 3, 11 ∷ []) ∷ (number 0, 12 ∷ 13 ∷ 14 ∷ []) ∷ []) refl
