-- ===== src/Integration/Integrator.antt =====
-- `Integrator` (pdip/integrator/base/integrator.py), over the initializer, the execution of an
-- operation and the message broker.
use pdip.Prelude.{◌≡◌, refl, Bool, true, false, Option, none, some, if◌then◌else◌}
use pdip.Prelude.Results.{Result, ok, err, and_then}
use pdip.Parallel.Domain.{Error, other}
use pdip.Integration.Messages.{attribute_error}

-- What an integrator calls: `integrator_initializer_factory.get()`, the initializer's `initialize`
-- and `operation_execution.start` with the message broker's channel, the broker's `join`, and what
-- dropping the broker does.
pub record Parts (W Operation : Type 0) : Type 0 where
  pub get_initializer : W → Result Error (Unit {0}) × W
  pub initialize : Operation → W → Result Error Operation × W
  pub start : Operation → W → Result Error (Unit {0}) × W
  pub join : W → Result Error (Unit {0}) × W
  pub close : W → W

-- `isinstance(operation, OperationBase)` with what it says.
pub data Argument (Operation : Type 0) : Type 0 where
  an_operation : Operation → Argument Operation
  no_operation : Argument Operation

-- The integrator's attribute `message_broker` is there until `close` deletes it.
pub record Integrator (W : Type 0) : Type 0 where
  pub has_message_broker : Bool
  pub world : W

module _ {W Operation : Type 0} (parts : Parts W Operation) where
  unfoldable pub on_world :
      {A : Type 0} → (W → Result Error A × W) → Integrator W → Result Error A × Integrator W
  on_world f s = let (r, w) = f s.world in (r, record s { world = w })

  -- A call that uses `self.message_broker`.
  unfoldable pub with_broker :
      {A : Type 0} → (W → Result Error A × W) → Integrator W → Result Error A × Integrator W
  unfolding on_world
  with_broker f s = if s.has_message_broker then on_world f s else (err attribute_error, s)

  unfoldable pub close : Integrator W → Integrator W
  close s =
      if s.has_message_broker
      then record { has_message_broker = false; world = parts.close s.world }
      else s

  -- The body of the `try`.
  unfoldable pub run : Operation → Integrator W → Result Error (Unit {0}) × Integrator W
  unfolding on_world with_broker
  run operation s = and_then (on_world parts.get_initializer s) (λ u s'.
      and_then (with_broker (parts.initialize operation) s')
        (λ initialized s''. with_broker (parts.start initialized) s''))

  -- The `finally`, after an outcome `r`: an exception of `join` replaces it and skips `close`.
  unfoldable pub end_run :
      Result Error (Unit {0})
      → Result Error (Unit {0}) × Integrator W
      → Result Error (Unit {0}) × Integrator W
  unfolding close
  end_run r (ok u, s) = (r, close s)
  end_run r (err e, s) = (err e, s)

  unfoldable pub finish :
      Result Error (Unit {0}) × Integrator W → Result Error (Unit {0}) × Integrator W
  unfolding end_run with_broker
  finish (r, s) = end_run r (with_broker parts.join s)

  unfoldable pub integrate :
      Option (Argument Operation) → Integrator W → Result Error (Unit {0}) × Integrator W
  unfolding run finish
  integrate none s = (err (other "Operation required"), s)
  integrate (some no_operation) s = (err (other "Operation type is not suitable"), s)
  integrate (some (an_operation operation)) s = finish (run operation s)

  and_then-broker :
      {A B : Type 0} (first : Result Error A × Integrator W)
      (k : A → Integrator W → Result Error B × Integrator W)
      → first.1.has_message_broker ≡ true
      → ((a : A) (s : Integrator W)
          → s.has_message_broker ≡ true
          → (k a s).1.has_message_broker ≡ true)
      → (and_then first k).1.has_message_broker ≡ true
  unfolding and_then
  and_then-broker (ok a, s) k h f = f a s h
  and_then-broker (err e, s) k h f = h

  with_broker-broker :
      {A : Type 0} (f : W → Result Error A × W) (s : Integrator W)
      → s.has_message_broker ≡ true
      → (with_broker f s).1.has_message_broker ≡ true
  unfolding with_broker on_world
  with_broker-broker f s h = rw h refl

  run-broker :
      (operation : Operation) (s : Integrator W)
      → s.has_message_broker ≡ true
      → (run operation s).1.has_message_broker ≡ true
  unfolding run
  run-broker operation s h = and_then-broker (on_world parts.get_initializer s) _ h (λ u t k.
      and_then-broker (with_broker (parts.initialize operation) t) _
        (with_broker-broker (parts.initialize operation) t k)
        (λ op v l. with_broker-broker (parts.start op) v l))

  finish-closes :
      (r : Result Error (Unit {0})) (s : Integrator W)
      → s.has_message_broker ≡ true
      → (parts.join s.world).0 ≡ ok tt
      → finish (r, s)
        ≡ (r, record { has_message_broker = false; world = parts.close (parts.join s.world).1 })
  unfolding finish with_broker on_world end_run close
  finish-closes r s h j = rw (h, j) refl

  -- A run without a broker, from what `get_initializer` comes to.
  finish-dropped :
      (operation : Operation) (first : Result Error (Unit {0}) × W)
      → let s : Integrator W = record { has_message_broker = false; world = first.1 } in
        finish (
          and_then
            (first.0, s)
            (λ u s'.
              and_then
                (with_broker (parts.initialize operation) s')
                (λ initialized s''. with_broker (parts.start initialized) s'')))
        ≡ (err attribute_error, s)
  unfolding finish with_broker end_run and_then
  finish-dropped operation (ok u, w) = refl
  finish-dropped operation (err e, w) = refl

  -- Whether the initialization and the execution of an operation return or raise, and where `join`
  -- does not raise, `integrate` joins the broker and drops it afterwards, and its outcome is
  -- theirs; integrating an operation again raises AttributeError, with nothing run but
  -- `get_initializer`.
  pub integrate-closes :
      (operation next : Operation) (s : Integrator W)
      → s.has_message_broker ≡ true
      → ((w : W) → (parts.join w).0 ≡ ok tt)
      → let ended = (run operation s).1.world in
        let after : Integrator W = record {
          has_message_broker = false;
          world = parts.close (parts.join ended).1;
        } in
        (integrate (some (an_operation operation)) s ≡ ((run operation s).0, after))
        × (integrate (some (an_operation next)) after
            ≡ (err attribute_error, record after { world = (parts.get_initializer after.world).1 }))
  unfolding integrate run on_world
  integrate-closes operation next s h joins = (
    finish-closes (run operation s).0 (run operation s).1 (run-broker operation s h)
        (joins (run operation s).1.world),
    finish-dropped next
        (parts.get_initializer (parts.close (parts.join (run operation s).1.world).1)),
  )
