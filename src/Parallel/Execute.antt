-- ===== src/Parallel/Execute.antt =====
-- `execute` of both parallel strategies (strategies/parallelthread/base/
-- parallel_thread_integration_execute.py, strategies/parallelold/base/
-- parallel_integration_execute.py): what it publishes around the processes that it starts.
use pdip.Prelude.{
  Bool, take, drop, ap, ◌∙◌, ℕ, ◌≡◌, refl, Option, none, some, List, [], ◌∷◌, ◌++◌, String,
}
use pdip.Prelude.Results.{Result, ok, err, and_then}
use pdip.Parallel.Domain.{Error, other}
use pdip.Pubsub.Channel.{interleave, interleave-last}

-- A published message of the log event: its text and its exception.
abbrev pub Entry : Type 0
Entry = String × Option Error

-- The entries that `execute` publishes itself, and the rest of the world. What the started threads
-- and processes and their brokers publish on the same channel meanwhile and later comes between and
-- behind these entries: `Pubsub.Channel.interleave`.
pub record Running (W : Type 0) : Type 0 where
  pub published : List Entry
  pub world : W

-- What is started: the manager of the queues and its end, the process or thread that reads the
-- source, and those that write, with the sum of their results.
pub record Processes (W : Type 0) : Type 0 where
  pub make_manager : W → Result Error (Unit {0}) × W
  pub shutdown : W → Result Error (Unit {0}) × W
  pub start_source_data_subprocess : W → Result Error (Unit {0}) × W
  pub start_execute_data_subprocess : W → Result Error ℕ × W

-- A call on the rest of the world.
unfoldable pub on_world :
    {W A : Type 0} → (W → Result Error A × W) → Running W → Result Error A × Running W
on_world f s = let (r, w) = f s.world in (r, record s { world = w })

unfoldable pub publish : {W : Type 0} → Entry → Running W → Result Error (Unit {0}) × Running W
publish entry s = (ok tt, record s { published = s.published ++ (entry ∷ []) })

module _ {W : Type 0} (processes : Processes W) where
  -- After the `finally` clause: what `manager.shutdown()` raises takes the place of the outcome.
  unfoldable pub after_shutdown :
      Result Error ℕ → Result Error (Unit {0}) × Running W → Result Error ℕ × Running W
  after_shutdown r (ok u, s) = (r, s)
  after_shutdown r (err e, s) = (err e, s)

  unfoldable pub finally_shutdown : Result Error ℕ × Running W → Result Error ℕ × Running W
  unfolding after_shutdown on_world
  finally_shutdown (r, s) = after_shutdown r (on_world processes.shutdown s)

  -- The inner `try`: without a manager, the `finally` clause reads a variable that is not set.
  unfoldable pub with_manager :
      (Running W → Result Error ℕ × Running W)
      → Result Error (Unit {0}) × Running W
      → Result Error ℕ × Running W
  unfolding finally_shutdown
  with_manager body (ok u, s) = finally_shutdown (body s)
  with_manager body (err e, s) = (err (other "UnboundLocalError"), s)

  -- The `except` clause.
  unfoldable pub or_log : Result Error ℕ × Running W → Result Error ℕ × Running W
  unfolding publish and_then
  or_log (ok n, s) = (ok n, s)
  or_log (err e, s) =
      and_then (publish ("Integration getting error.", some e) s) λ _ s'. (err e, s')

  -- After the writers have ended.
  unfoldable pub finish : Result Error ℕ × Running W → Result Error ℕ × Running W
  unfolding and_then publish
  finish r =
      and_then r
        λ n s. and_then (publish ("Execute data process finished", none) s) λ _ s'. (ok n, s')

  -- From the start of the writers on.
  unfoldable pub write_all : Running W → Result Error ℕ × Running W
  unfolding and_then on_world publish finish
  write_all s = and_then (publish ("Source data process started", none) s) λ _ s1.
      and_then (publish ("Execute data process will start", none) s1)
        λ _ s2. finish (on_world processes.start_execute_data_subprocess s2)

  unfoldable pub read_and_write : Running W → Result Error ℕ × Running W
  unfolding write_all and_then on_world
  read_and_write s =
      and_then (on_world processes.start_source_data_subprocess s) λ _ s'. write_all s'

  -- ParallelThreadIntegrationExecute.execute
  unfoldable pub execute : Running W → Result Error ℕ × Running W
  unfolding or_log with_manager read_and_write on_world
  execute s = or_log (with_manager read_and_write (on_world processes.make_manager s))

  -- ParallelIntegrationExecute.execute, which publishes one message more.
  unfoldable pub announce : Running W → Result Error ℕ × Running W
  unfolding publish read_and_write and_then
  announce s =
      and_then (publish ("Source data process will start", none) s) λ _ s'. read_and_write s'

  unfoldable pub execute_processes : Running W → Result Error ℕ × Running W
  unfolding or_log with_manager announce on_world
  execute_processes s = or_log (with_manager announce (on_world processes.make_manager s))

  -- The last entry that an outcome leaves.
  abbrev pub last_entry : Result Error ℕ → Entry
  last_entry (ok n) = ("Execute data process finished", none)
  last_entry (err e) = ("Integration getting error.", some e)

  abbrev pub EndsWithEntry : Result Error ℕ × Running W → Type 0
  EndsWithEntry (r, s) = (earlier : List Entry) × (s.published ≡ earlier ++ (last_entry r ∷ []))

  -- An outcome that is ok has been announced.
  abbrev OkIsFinished : Result Error ℕ × Running W → Type 0
  OkIsFinished (ok n, s) = EndsWithEntry (ok n, s)
  OkIsFinished (err e, s) = Unit

  finish-OkIsFinished : (r : Result Error ℕ × Running W) → OkIsFinished (finish r)
  unfolding finish and_then publish
  finish-OkIsFinished (ok n, s) = (s.published, refl)
  finish-OkIsFinished (err e, s) = tt

  and_then-OkIsFinished :
      (r : Result Error (Unit {0}) × Running W) (body : Running W → Result Error ℕ × Running W)
      → ((s : Running W) → OkIsFinished (body s))
      → OkIsFinished (and_then r (λ _ s. body s))
  unfolding and_then
  and_then-OkIsFinished (ok u, s) body h = h s
  and_then-OkIsFinished (err e, s) body h = tt

  read_and_write-OkIsFinished : (s : Running W) → OkIsFinished (read_and_write s)
  unfolding read_and_write write_all publish and_then
  read_and_write-OkIsFinished s =
      and_then-OkIsFinished (on_world processes.start_source_data_subprocess s) write_all
        λ s'. finish-OkIsFinished _

  after_shutdown-OkIsFinished :
      (r : Result Error ℕ) (s : Running W) (ended : Result Error (Unit {0})) (w : W)
      → OkIsFinished (r, s)
      → OkIsFinished (after_shutdown r (ended, record s { world = w }))
  unfolding after_shutdown
  after_shutdown-OkIsFinished (ok n) s (ok u) w h = h
  after_shutdown-OkIsFinished (err e) s (ok u) w h = tt
  after_shutdown-OkIsFinished r s (err e) w h = tt

  with_manager-OkIsFinished :
      (body : Running W → Result Error ℕ × Running W) (r : Result Error (Unit {0}) × Running W)
      → ((s : Running W) → OkIsFinished (body s))
      → OkIsFinished (with_manager body r)
  unfolding with_manager finally_shutdown on_world
  with_manager-OkIsFinished body (err e, s) h = tt
  with_manager-OkIsFinished body (ok u, s) h =
      after_shutdown-OkIsFinished (body s).0 (body s).1 (processes.shutdown (body s).1.world).0
        (processes.shutdown (body s).1.world).1 (h s)

  or_log-EndsWithEntry :
      (r : Result Error ℕ × Running W) → OkIsFinished r → EndsWithEntry (or_log r)
  unfolding or_log publish and_then
  or_log-EndsWithEntry (ok n, s) h = h
  or_log-EndsWithEntry (err e, s) h = (s.published, refl)

  -- On the channel, among any entries of others, the last entry of an outcome is followed by entries
  -- of the others only.
  abbrev pub EndsAmong : List Bool → List Entry → Result Error ℕ × Running W → Type 0
  EndsAmong schedule others (r, s) =
      (before : List Entry) × (k : ℕ) × (interleave schedule s.published others
        ≡ before ++ last_entry r ∷ drop k others)

  EndsWithEntry-EndsAmong :
      (schedule : List Bool) (others : List Entry) (r : Result Error ℕ × Running W)
      → EndsWithEntry r
      → EndsAmong schedule others r
  EndsWithEntry-EndsAmong schedule others (r, s) (earlier, e) =
      let (k, split) = interleave-last schedule earlier (last_entry r) others in
      (
        interleave schedule earlier (take k others),
        k,
        ap (λ own. interleave schedule own others) e ∙ split,
      )

  -- Whatever the manager, its end and the started processes raise or return, the last entry that
  -- either strategy publishes itself fits the outcome: for a number of rows, that the writers have
  -- finished, and for an exception, the error message with that exception. Whatever the started
  -- threads and processes publish on the same channel, and however that is interleaved, only
  -- entries of theirs stand behind it.
  pub execute-EndsAmong :
      (schedule : List Bool) (others : List Entry) (s : Running W)
      → EndsWithEntry (execute s)
        × EndsWithEntry (execute_processes s)
        × EndsAmong schedule others (execute s)
        × EndsAmong schedule others (execute_processes s)
  unfolding execute execute_processes announce publish and_then
  execute-EndsAmong schedule others s =
      let made = on_world processes.make_manager s in
      let threads =
        or_log-EndsWithEntry (with_manager read_and_write made)
          (with_manager-OkIsFinished read_and_write made read_and_write-OkIsFinished) in
      let separate =
        or_log-EndsWithEntry (with_manager announce made)
          (with_manager-OkIsFinished announce made (λ s'. read_and_write-OkIsFinished _)) in
      (
        threads,
        separate,
        EndsWithEntry-EndsAmong schedule others (execute s) threads,
        EndsWithEntry-EndsAmong schedule others (execute_processes s) separate,
      )
