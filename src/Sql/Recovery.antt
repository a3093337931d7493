-- ===== src/Sql/Recovery.antt =====
-- When the retries of `execute_many` recover, and when they give up.
use pdip.Prelude.{
  ℕ, zero, suc, ◌+◌, ◌≤◌, ◌<◌, ◌≡◌, ap, subst, Option, some, [], ◌∷◌, ◌++◌, String, arith, le→ltb,
  lt→ltb,
}
use pdip.Prelude.Results.{Result, ok, err, and_then}
use pdip.Parallel.Domain.{Error}
use pdip.Sql.Retry.{
  connects, executes, disconnects, sleeps, Connector, Session, call, end_call, finish_call,
  finish_run, go_on, connect, reconnect, on_error, execute_with_retry, execute_many,
}

module _ {W Data : Type 0} (connector : Connector W Data) (retry_count : ℕ) (query : String)
    (rows : Data) where
  -- What the attempts from a world come to: after `j` that raise, each with a reconnection that
  -- does not, the outcome is `r`.
  abbrev pub Attempts : ℕ → Result Error ℕ → W → Type 0
  Attempts zero r w = (connector.execute_many query rows w).0 ≡ r
  Attempts (suc j) r w =
      (e : Error) × (w' w'' : W) × (connector.execute_many query rows w ≡ (err e, w'))
      × (connector.connect w' ≡ (ok tt, w''))
      × Attempts j r w''

  -- The outcome of a run.
  abbrev pub Yields : Result Error ℕ → Option (Result Error ℕ × Session W) → Type 0
  Yields r o = (end : Session W) × (o ≡ some (r, end))

  -- An outcome that is not retried.
  abbrev IsLast : ℕ → Result Error ℕ → Type 0
  IsLast retry (ok n) = Unit
  IsLast retry (err e) = retry_count < retry

  on_error-Yields :
      (rest : Session W → Option (Result Error ℕ × Session W)) (retry : ℕ) (r r' : Result Error ℕ)
      (s : Session W)
      → r ≡ r'
      → IsLast retry r'
      → Yields r' (on_error connector retry_count query rows rest retry (r, s))
  unfolding on_error
  on_error-Yields rest retry (ok n) r' s e last = (s, ap (λ x. some (x, s)) e)
  on_error-Yields rest retry (err x) (ok n) s e last = cc
  on_error-Yields rest retry (err x) (err y) s e last =
      rw (lt→ltb retry_count retry last) (s, ap (λ t. some (t, s)) e)

  execute_with_retry-Yields :
      (j fuel retry last : ℕ) (r : Result Error ℕ) (s : Session W)
      → Attempts j r s.world
      → j < fuel
      → j + retry ≡ last
      → last ≤ suc retry_count
      → IsLast last r
      → Yields r (execute_with_retry connector retry_count query rows fuel retry s)
  unfolding execute_with_retry call go_on reconnect and_then on_error
  execute_with_retry-Yields j zero retry last r s a h k b l = absurd (omega arith)
  execute_with_retry-Yields zero (suc fuel) retry last r s a h k b l =
      let first = call executes (connector.execute_many query rows) s in
      let same : last ≡ retry = omega (arith, k) in
      on_error-Yields (execute_with_retry connector retry_count query rows fuel (retry + 1)) retry
        first.0 r first.1 a (subst (λ n. IsLast n r) same l)
  execute_with_retry-Yields (suc j) (suc fuel) retry last r s (e, w, w', failed, again, a) h k b l =
      let after : Session W = record {
        world = w';
        calls = ((s.calls ++ executes ∷ []) ++ connects ∷ []) ++ sleeps ∷ [];
      } in
      rw (failed, again, le→ltb retry_count retry (omega arith))
        (execute_with_retry-Yields j fuel (retry + 1) last r after a (omega arith) (omega arith) b
          l)

  run-Yields :
      (r : Result Error ℕ) (o : Option (Result Error ℕ × Session W))
      → ((w : W) → (connector.disconnect w).0 ≡ ok tt)
      → Yields r o
      → Yields r (finish_run connector o)
  unfolding finish_run finish_call call end_call
  run-Yields r o d (end, e) =
      let closed : Session W = record {
        world = (connector.disconnect end.world).1;
        calls = end.calls ++ disconnects ∷ [];
      } in
      (closed, rw e (ground (arith, d end.world)))

  execute_many-Yields :
      (j : ℕ) (r : Result Error ℕ) (s : Session W) (w : W)
      → connector.connect s.world ≡ (ok tt, w)
      → Attempts j r w
      → j ≤ retry_count
      → IsLast (suc j) r
      → ((v : W) → (connector.disconnect v).0 ≡ ok tt)
      → Yields r (execute_many connector retry_count query rows s)
  unfolding execute_many connect call go_on
  execute_many-Yields j r s w c a h last d =
      let opened : Session W = record { world = w; calls = s.calls ++ connects ∷ [] } in
      run-Yields r _ d (
        rw c (
          execute_with_retry-Yields j (suc retry_count) 1 (suc j) r opened a (omega arith)
            (omega arith) (omega arith) last))

  -- Where connecting and disconnecting do not raise and a write succeeds after at most
  -- `retry_count` attempts that raise, `execute_many` returns that write's row count.
  pub execute_many-recovers :
      (j n : ℕ) (s : Session W) (w : W)
      → connector.connect s.world ≡ (ok tt, w)
      → Attempts j (ok n) w
      → j ≤ retry_count
      → ((v : W) → (connector.disconnect v).0 ≡ ok tt)
      → Yields (ok n) (execute_many connector retry_count query rows s)
  execute_many-recovers j n s w c a h d = execute_many-Yields j (ok n) s w c a h tt d

  -- Where connecting and disconnecting do not raise and `retry_count + 1` attempts raise,
  -- `execute_many` raises the exception of the last of them.
  pub execute_many-gives_up :
      (e : Error) (s : Session W) (w : W)
      → connector.connect s.world ≡ (ok tt, w)
      → Attempts retry_count (err e) w
      → ((v : W) → (connector.disconnect v).0 ≡ ok tt)
      → Yields (err e) (execute_many connector retry_count query rows s)
  execute_many-gives_up e s w c a d =
      execute_many-Yields retry_count (err e) s w c a (omega arith) (omega arith) d
