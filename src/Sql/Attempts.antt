-- ===== src/Sql/Attempts.antt =====
-- How many calls `execute_many` makes on the connector.
use pdip.Prelude.{
  ℕ, zero, suc, ◌+◌, ◌≤◌, ◌<◌, ◌≡◌, refl, ap, ◌∙◌, Bool, true, false, Option, some, [], ◌∷◌, ◌++◌,
  String, arith, count, count-snoc, ltb, lt→ltb, Bool-cases, inl, inr,
}
use pdip.Prelude.Results.{Result, ok, err, and_then}
use pdip.Parallel.Domain.{Error}
use pdip.Sql.Retry.{
  Call, connects, executes, disconnects, sleeps, Connector, Session, call, end_call, finish_call,
  finish_run, go_on, connect, reconnect, on_error, execute_with_retry, execute_many,
}

abbrev pub is_connects : Call → Bool
is_connects connects = true
is_connects _ = false

abbrev pub is_executes : Call → Bool
is_executes executes = true
is_executes _ = false

abbrev pub is_disconnects : Call → Bool
is_disconnects disconnects = true
is_disconnects _ = false

module _ {W Data : Type 0} (connector : Connector W Data) (retry_count : ℕ) (query : String)
    (rows : Data) where
  -- From `s`, the run ends, with at most `m` writes and `n` connections, and `d` closings.
  abbrev pub EndsWithin : ℕ → ℕ → ℕ → Session W → Option (Result Error ℕ × Session W) → Type 0
  EndsWithin m n d s o =
      (r : Result Error ℕ) × (end : Session W) × (o ≡ some (r, end))
      × (count is_executes end.calls ≤ count is_executes s.calls + m)
      × (count is_connects end.calls ≤ count is_connects s.calls + n)
      × (count is_disconnects end.calls ≡ count is_disconnects s.calls + d)

  EndsWithin-trans :
      (m n m' n' : ℕ) (s t : Session W) (o : Option (Result Error ℕ × Session W))
      → count is_executes t.calls + m' ≤ count is_executes s.calls + m
      → count is_connects t.calls + n' ≤ count is_connects s.calls + n
      → count is_disconnects t.calls ≡ count is_disconnects s.calls
      → EndsWithin m' n' 0 t o
      → EndsWithin m n 0 s o
  EndsWithin-trans m n m' n' s t o a b c (r, end, e, x, y, z) =
      (r, end, e, omega arith, omega arith, omega arith)

  and_then-calls :
      (first : Result Error (Unit {0}) × Session W)
      → let after = and_then first (λ u t. call sleeps (λ w. (ok tt, w)) t) in
        (count is_executes after.1.calls ≡ count is_executes first.1.calls)
        × (count is_connects after.1.calls ≡ count is_connects first.1.calls)
        × (count is_disconnects after.1.calls ≡ count is_disconnects first.1.calls)
  unfolding call and_then
  and_then-calls (ok u, s) = (
    omega (arith, count-snoc is_executes s.calls sleeps),
    omega (arith, count-snoc is_connects s.calls sleeps),
    omega (arith, count-snoc is_disconnects s.calls sleeps),
  )
  and_then-calls (err e, s) = (refl, refl, refl)

  reconnect-calls :
      (s : Session W)
      → let after = reconnect connector retry_count query rows s in
        (count is_executes after.1.calls ≡ count is_executes s.calls)
        × (count is_connects after.1.calls ≡ count is_connects s.calls + 1)
        × (count is_disconnects after.1.calls ≡ count is_disconnects s.calls)
  unfolding reconnect call
  reconnect-calls s =
      let (x, y, z) = and_then-calls (call connects connector.connect s) in
      (
        x ∙ omega (arith, count-snoc is_executes s.calls connects),
        y ∙ omega (arith, count-snoc is_connects s.calls connects),
        z ∙ omega (arith, count-snoc is_disconnects s.calls connects),
      )

  go_on-EndsWithin :
      (rest : Session W → Option (Result Error ℕ × Session W)) (m n : ℕ)
      (after : Result Error (Unit {0}) × Session W)
      → ((t : Session W) → EndsWithin m n 0 t (rest t))
      → EndsWithin m n 0 after.1 (go_on connector rest after)
  unfolding go_on
  go_on-EndsWithin rest m n (ok u, s) h = h s
  go_on-EndsWithin rest m n (err e, s) h = (err e, s, refl, omega arith, omega arith, omega arith)

  on_error-stops :
      (rest : Session W → Option (Result Error ℕ × Session W)) (retry : ℕ)
      (outcome : Result Error ℕ × Session W)
      → retry_count < retry
      → EndsWithin 0 0 0 outcome.1 (on_error connector retry_count query rows rest retry outcome)
  unfolding on_error
  on_error-stops rest retry (ok n, s) h = (ok n, s, refl, omega arith, omega arith, omega arith)
  on_error-stops rest retry (err e, s) h =
      rw (lt→ltb retry_count retry h) (err e, s, refl, omega arith, omega arith, omega arith)

  on_error-EndsWithin :
      (rest : Session W → Option (Result Error ℕ × Session W)) (retry m n : ℕ)
      (outcome : Result Error ℕ × Session W)
      → (retry ≤ retry_count → (t : Session W) → EndsWithin m n 0 t (rest t))
      → EndsWithin m
          (1 + n)
          0
          outcome.1
          (on_error connector retry_count query rows rest retry outcome)
  unfolding on_error
  on_error-EndsWithin rest retry m n (ok k, s) h =
      (ok k, s, refl, omega arith, omega arith, omega arith)
  on_error-EndsWithin rest retry m n (err e, s) h = elim (Bool-cases (ltb retry_count retry)) [
    | inl t ↦ rw t (err e, s, refl, omega arith, omega arith, omega arith)
    | inr f ↦
        let after = reconnect connector retry_count query rows s in
        let (x, y, z) = reconnect-calls s in
        rw f (
          EndsWithin-trans m (1 + n) m n s after.1 (go_on connector rest after) (omega (arith, x))
            (omega (arith, y)) z (go_on-EndsWithin rest m n after (h (ground (arith, f)))))
  ]

  execute_with_retry-EndsWithin :
      (fuel retry : ℕ) (s : Session W)
      → retry_count + 1 ≤ fuel + retry
      → EndsWithin
          (suc fuel)
          fuel
          0
          s
          (execute_with_retry connector retry_count query rows (suc fuel) retry s)
  unfolding execute_with_retry call
  execute_with_retry-EndsWithin zero retry s h =
      let first = call executes (connector.execute_many query rows) s in
      EndsWithin-trans 1 0 0 0 s first.1 _ (omega (arith, count-snoc is_executes s.calls executes))
        (omega (arith, count-snoc is_connects s.calls executes))
        (omega (arith, count-snoc is_disconnects s.calls executes))
        (on_error-stops (execute_with_retry connector retry_count query rows zero (retry + 1)) retry
          first (omega (arith, h)))
  execute_with_retry-EndsWithin (suc fuel) retry s h =
      let first = call executes (connector.execute_many query rows) s in
      EndsWithin-trans (suc (suc fuel)) (suc fuel) (suc fuel) (1 + fuel) s first.1 _
        (omega (arith, count-snoc is_executes s.calls executes))
        (omega (arith, count-snoc is_connects s.calls executes))
        (omega (arith, count-snoc is_disconnects s.calls executes))
        (on_error-EndsWithin
          (execute_with_retry connector retry_count query rows (suc fuel) (retry + 1)) retry
          (suc fuel) fuel first
          (λ le t. execute_with_retry-EndsWithin fuel (retry + 1) t (omega (arith, h))))

  end_call-calls :
      (r : Result Error ℕ) (after : Result Error (Unit {0}) × Session W)
      → (end_call r after).1.calls ≡ after.1.calls
  unfolding end_call
  end_call-calls r (ok u, s) = refl
  end_call-calls r (err e, s) = refl

  finish_call-calls :
      (outcome : Result Error ℕ × Session W)
      → (finish_call connector outcome).1.calls ≡ outcome.1.calls ++ disconnects ∷ []
  unfolding finish_call call
  finish_call-calls (r, s) = end_call-calls r (call disconnects connector.disconnect s)

  finish_run-EndsWithin :
      (m n : ℕ) (s : Session W) (o : Option (Result Error ℕ × Session W))
      → EndsWithin m n 0 s o
      → EndsWithin m n 1 s (finish_run connector o)
  unfolding finish_run
  finish_run-EndsWithin m n s o (r, end, e, x, y, z) =
      let done = finish_call connector (r, end) in
      let c = finish_call-calls (r, end) in
      (
        done.0,
        done.1,
        ap (finish_run connector) e,
        rw c (omega (arith, x, count-snoc is_executes end.calls disconnects)),
        rw c (omega (arith, y, count-snoc is_connects end.calls disconnects)),
        rw c (omega (arith, z, count-snoc is_disconnects end.calls disconnects)),
      )

  -- `execute_many` always ends, returning or raising, whatever the connector's calls return or
  -- raise: it makes at most `retry_count + 1` attempts to write and as many connections, and
  -- disconnects exactly once.
  pub execute_many-EndsWithin :
      (s : Session W)
      → EndsWithin
          (suc retry_count)
          (suc retry_count)
          1
          s
          (execute_many connector retry_count query rows s)
  unfolding execute_many connect call
  execute_many-EndsWithin s =
      let first = call connects connector.connect s in
      let run = execute_with_retry connector retry_count query rows (suc retry_count) 1 in
      finish_run-EndsWithin (suc retry_count) (suc retry_count) s (go_on connector run first) (
        EndsWithin-trans (suc retry_count) (suc retry_count) (suc retry_count) retry_count s first.1
          (go_on connector run first) (omega (arith, count-snoc is_executes s.calls connects))
          (omega (arith, count-snoc is_connects s.calls connects))
          (omega (arith, count-snoc is_disconnects s.calls connects))
          (go_on-EndsWithin run (suc retry_count) retry_count first
            (λ t. execute_with_retry-EndsWithin retry_count 1 t (omega arith))))
