-- ===== src/Pubsub/Message.antt =====
-- `TaskMessage` (pdip/integrator/pubsub/domain/message.py) and the events by which messages are
-- addressed; the integrator's own events are the numbers of
-- pdip/integrator/domain/enums/events.py.
use text.Mathlib.Text.{◌==◌ as str_eq}
use text.Mathlib.TextEquality.{eq_iff}
use pdip.Prelude.{ℕ, ◌≡◌, ◌↔◌, String, Bool, true, false, not, Option, arith, ◌==◌}

pub data Event : Type 0 where
  number : ℕ → Event
  named : String → Event

abbrev pub event_log : Event
event_log = number 0

abbrev pub event_execution_finished : Event
event_execution_finished = number 3

-- Python's `==` on events, by which a dict finds its keys.
unfoldable pub event_eq : Event → Event → Bool
event_eq (number a) (number b) = a == b
event_eq (named a) (named b) = str_eq a b
event_eq _ _ = false

-- Python's truth of an event: 0 and "" are false.
unfoldable pub is_truthy : Event → Bool
is_truthy (number a) = not (a == 0)
is_truthy (named a) = not (str_eq a "")

pub event_eq_iff : (a b : Event) → (event_eq a b ≡ true) ↔ (a ≡ b)
unfolding event_eq
event_eq_iff (number a) (number b) = (λ h. ground arith, λ h. ground arith)
event_eq_iff (number a) (named b) = (λ h. cc, λ h. cc)
event_eq_iff (named a) (number b) = (λ h. cc, λ h. cc)
event_eq_iff (named a) (named b) =
    (λ h. ground (arith, eq_iff a b), λ h. ground (arith, eq_iff a b))

-- `args` is passed to no callback.
pub record TaskMessage (K : Type 0) : Type 0 where
  pub event : Option Event
  pub is_finished : Bool
  pub kwargs : K
