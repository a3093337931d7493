-- ===== src/Tests/Services.antt =====
-- A configuration of one entry, a dispatcher of one handler, and an integrator.
use pdip.Prelude.{ℕ, ◌+◌, ◌≡◌, refl, inr, true, false, some, none, List, [], ◌∷◌, ◌==◌}
use pdip.Prelude.Results.{ok, err, and_then}
use pdip.Parallel.Domain.{other}
use pdip.Integration.Messages.{attribute_error}
use pdip.Integration.Integrator.{
  Parts, an_operation, Integrator, integrate, integrate-closes, run, with_broker, on_world,
}
use pdip.Configuration.{Config, Classes}
use pdip.Api.{Response}
use pdip.Cqrs.{Kind, Handlers, dispatch, dispatch-first}

-- Classes are numbers, and an instance is its class and the value of its only property.
abbrev classes : Classes ℕ (ℕ × ℕ) ℕ
classes = record {
  is_instance = λ i t. i.0 == t;
  is_same = λ t u. t == u;
  is_same_module = λ t u. t == u;
  make = λ t. (t, 0);
  set_attribute = λ i property value. (i.0, value);
}

abbrev configs : List (Config ℕ (ℕ × ℕ))
configs = record { name = some "Api"; type = some 1; instance_of = (1, 80) } ∷ []

-- The handler 4 handles the command 4.
abbrev handlers : Handlers ℕ ℕ ℕ ℕ ℕ
handlers = record {
  import_handler = λ cq w. w + 1;
  subclasses = λ kind w. 3 ∷ 4 ∷ [];
  handles = λ kind h cq. h == cq;
  provide = λ h w. (ok (some h), w);
  handle = λ i cq w. (ok (i + cq), w);
}

dispatch-first_example : dispatch handlers Kind.command 4 0 ≡ (ok none, 1)
unfolding and_then
dispatch-first_example =
    dispatch-first handlers 4 (3 ∷ []) [] 4 4 0 1 Kind.command (inr refl) refl (refl, tt) refl refl

-- The world counts what is done in it; the execution raises.
abbrev parts : Parts ℕ ℕ
parts = record {
  get_initializer = λ w. (ok tt, w + 1);
  initialize = λ operation w. (ok operation, w + 10);
  start = λ operation w. (err (other "failed"), w + 100);
  join = λ w. (ok tt, w + 1000);
  close = λ w. w + 10000;
}

abbrev integrator : Integrator ℕ
integrator = record { has_message_broker = true; world = 0 }

abbrev closed : Integrator ℕ
closed = record { has_message_broker = false; world = 11111 }

integrate-closes_example :
    (integrate parts (some (an_operation 1)) integrator ≡ (err (other "failed"), closed))
    × (integrate parts (some (an_operation 2)) closed
        ≡ (err attribute_error, record closed { world = 11112 }))
unfolding run with_broker on_world and_then
integrate-closes_example = integrate-closes parts 1 2 integrator refl (λ w. refl)

-- A configuration of one origin, and a request from it.
abbrev response : Response
response = record { allow_origin = some "b.org"; server = none }

abbrev allowed : Response
allowed = record { allow_origin = some "a.org"; server = some "" }
