-- ===== src/Sql/Retry.antt =====
-- The calls of `SqlContext` (pdip/integrator/connection/types/sql/base/sql_context.py) on its
-- connector: the `connect` decorator and the retries of `execute_many`. A connector is any
-- `Connector`; the calls made on it are kept in their order.
use pdip.Prelude.{
  ℕ, zero, suc, ◌+◌, Option, none, some, List, [], ◌∷◌, ◌++◌, String, ltb, if◌then◌else◌,
}
use pdip.Prelude.Results.{Result, ok, err, and_then}
use pdip.Parallel.Domain.{Error}

pub data Call : Type 0 where
  connects executes disconnects sleeps : Call

-- What the calls on a connector do to the world `W`: `connect`, `disconnect` and
-- `execute_many(query, data)`.
pub record Connector (W Data : Type 0) : Type 0 where
  pub connect : W → Result Error (Unit {0}) × W
  pub disconnect : W → Result Error (Unit {0}) × W
  pub execute_many : String → Data → W → Result Error ℕ × W

-- The world, with the calls made so far.
pub record Session (W : Type 0) : Type 0 where
  pub world : W
  pub calls : List Call

module _ {W : Type 0} where
  -- A call on the connector.
  unfoldable pub call :
      {A : Type 0} → Call → (W → Result Error A × W) → Session W → Result Error A × Session W
  call c f s = let (r, w) = f s.world in (r, record { world = w; calls = s.calls ++ c ∷ [] })

  -- `finally: args[0].connector.disconnect()`: an exception of disconnect replaces the outcome.
  unfoldable pub end_call :
      {A : Type 0}
      → Result Error A
      → Result Error (Unit {0}) × Session W
      → Result Error A × Session W
  end_call r (ok u, s) = (r, s)
  end_call r (err e, s) = (err e, s)

module _ {W Data : Type 0} (connector : Connector W Data) where
  unfoldable pub finish_call :
      {A : Type 0} → Result Error A × Session W → Result Error A × Session W
  unfolding call end_call
  finish_call (r, s) = end_call r (call disconnects connector.disconnect s)

  unfoldable pub finish_run :
      {A : Type 0} → Option (Result Error A × Session W) → Option (Result Error A × Session W)
  finish_run none = none
  finish_run (some r) = some (finish_call r)

  -- The rest of a run, where the call before it did not raise.
  unfoldable pub go_on :
      {A : Type 0}
      → (Session W → Option (Result Error A × Session W))
      → Result Error (Unit {0}) × Session W
      → Option (Result Error A × Session W)
  go_on func (ok u, s) = func s
  go_on func (err e, s) = some (err e, s)

  -- The decorator `connect`, of a function that is `none` where it runs out of fuel.
  unfoldable pub connect :
      {A : Type 0}
      → (Session W → Option (Result Error A × Session W))
      → Session W
      → Option (Result Error A × Session W)
  unfolding call finish_run go_on
  connect func s = finish_run (go_on func (call connects connector.connect s))

  module _ (retry_count : ℕ) (query : String) (rows : Data) where
    -- `connect()` and `sleep(1)` before the next attempt.
    unfoldable pub reconnect : Session W → Result Error (Unit {0}) × Session W
    unfolding call
    reconnect s =
        and_then (call connects connector.connect s) (λ u s'. call sleeps (λ w. (ok tt, w)) s')

    -- The `except` clause.
    unfoldable pub on_error :
        (Session W → Option (Result Error ℕ × Session W))
        → ℕ
        → Result Error ℕ × Session W
        → Option (Result Error ℕ × Session W)
    unfolding go_on reconnect
    on_error rest retry (ok n, s) = some (ok n, s)
    on_error rest retry (err e, s) =
        if ltb retry_count retry then some (err e, s) else go_on rest (reconnect s)

    -- _execute_with_retry; `none` where the fuel runs out.
    unfoldable pub execute_with_retry : ℕ → ℕ → Session W → Option (Result Error ℕ × Session W)
    unfolding on_error call
    execute_with_retry zero retry s = none
    execute_with_retry (suc fuel) retry s =
        on_error (execute_with_retry fuel (retry + 1)) retry
          (call executes (connector.execute_many query rows) s)

    -- execute_many, with the context's default_retry of 1 and fuel for retry_count + 1 attempts.
    unfoldable pub execute_many : Session W → Option (Result Error ℕ × Session W)
    unfolding execute_with_retry connect
    execute_many s = connect (execute_with_retry (suc retry_count) 1) s
