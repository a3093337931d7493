-- ===== src/Integration/Lifecycle.antt =====
-- The messages of an operation and of an integration, whatever their execution does.
use mathlib.Core.List.{append_assoc, map-append}
use pdip.Prelude.{
  ℕ, zero, suc, arith, take, drop, ◌≡◌, refl, ap, subst, ◌∙◌, sym, String, Bool, Option, none, some,
  List, [], ◌∷◌, ◌++◌, map, count,
}
use pdip.Prelude.Results.{Result, ok, err}
use pdip.Parallel.Domain.{Error}
use pdip.Pubsub.Message.{Event}
use pdip.Pubsub.Threads.{finished, forward, listen}
use pdip.Pubsub.Delivery.{all_calls, delivers}
use pdip.Integration.Domain.{
  OperationIntegration, OperationBase, initialized, said, said_in, of_operation, Kwargs, Message,
  task_message, event_integration_initialized, event_integration_started,
  event_execution_initialized, event_execution_started,
}
use pdip.Integration.Transaction.{
  RepositoryProvider, after_rollback, on_exception, after_commit, attempt, after_close, close_after,
  transactionhandler,
}
use pdip.Pubsub.Channel.{interleave, interleave-last, count-interleave}
use pdip.Integration.Messages.{Adapter, get_start_message, get_finish_message, get_error_message}
use pdip.Integration.Adapters.{
  Installation, State, publish, message_of, log_message, call, lift, get_adapter, execute,
}
use pdip.Integration.Execution.{
  failed_message, finished_message, operation_finished, on_error, catch, body, initialized_with,
  start_integration, start_execution, end_operation, run_operation, operation_initialized_with,
  start_undecorated, on_state, start,
}
use pdip.Integration.Quiet.{
  Quiet, Quiet-same, Quiet-trans, Quiet-publish, Quiet-then, Quiet-execute,
}

abbrev pub is_end : Message → Bool
is_end m = m.is_finished

abbrev pub error_of : {A : Type 0} → Result Error A → Option Error
error_of (ok _) = none
error_of (err e) = some e

module _ {W : Type 0} (site : Installation W) (elapsed : OperationIntegration → W → String) where
  Quiet-on_error :
      (a : Adapter) (oi : OperationIntegration) (e : Error) (s : State W)
      → Quiet is_end s (on_error site elapsed a oi e s).1
  unfolding on_error
  Quiet-on_error a oi e s =
      let t = get_error_message a oi.integration in
      Quiet-then is_end s (lift t s) _ (Quiet-same is_end s s refl)
        (λ t s1. Quiet-publish is_end (failed_message oi t e) s1 refl)

  Quiet-catch :
      (a : Adapter) (oi : OperationIntegration) (r : Result Error (Unit {0}) × State W)
      (s : State W)
      → Quiet is_end s r.1
      → Quiet is_end s (catch site elapsed a oi r).1
  unfolding catch
  Quiet-catch a oi (ok u, s') s h = h
  Quiet-catch a oi (err e, s') s h = Quiet-trans is_end s s' _ h (Quiet-on_error a oi e s')

  Quiet-body :
      (a : Adapter) (oi : OperationIntegration) (s : State W)
      → Quiet is_end s (body site elapsed a oi s).1
  unfolding body
  Quiet-body a oi s =
      let begun = get_start_message a oi.integration in
      let ended = get_finish_message a oi.integration in
      let m = message_of event_integration_initialized oi initialized in
      let s1 = (publish m s).1 in
      Quiet-trans is_end s s1 _ (Quiet-publish is_end m s refl) (
        Quiet-then is_end s1 (lift begun s1) _ (Quiet-same is_end s1 s1 refl) (λ t s2.
          let m = message_of event_integration_started oi (said t) in
          let s3 = (publish m s2).1 in
          Quiet-trans is_end s2 s3 _ (Quiet-publish is_end m s2 refl) (
            Quiet-then is_end s3 (execute site a oi s3) _
              (Quiet-execute site is_end (λ e k _. refl) a oi s3)
              (λ n s4.
                Quiet-then is_end s4 (lift ended s4) _ (Quiet-same is_end s4 s4 refl) (λ t s5.
                  Quiet-publish is_end (finished_message oi (said_in t (elapsed oi s5.world)) n) s5
                    refl)))))

  Quiet-initialized_with :
      (a : Adapter) (oi : OperationIntegration) (r : Result Error OperationIntegration × State W)
      (s : State W)
      → Quiet is_end s r.1
      → Quiet is_end s (initialized_with site elapsed a oi r).1
  unfolding initialized_with
  Quiet-initialized_with a oi (ok oi', s') s h =
      Quiet-trans is_end s s' _ h
        (Quiet-catch a oi' (body site elapsed a oi' s') s' (Quiet-body a oi' s'))
  Quiet-initialized_with a oi (err e, s') s h =
      Quiet-trans is_end s s' _ h (Quiet-on_error a oi e s')

  Quiet-integration :
      (oi : OperationIntegration) (s : State W)
      → Quiet is_end s (start_integration site elapsed oi s).1
  unfolding start_integration call
  Quiet-integration oi s =
      let found = get_adapter oi.integration in
      Quiet-then is_end s (lift found s) _ (Quiet-same is_end s s refl) (λ a s1.
        Quiet-initialized_with a oi (call (site.initialize_integration oi) s1) s1
          (Quiet-same is_end s1 (call (site.initialize_integration oi) s1).1 refl))

  Quiet-execution :
      (ois : List OperationIntegration) (s : State W)
      → Quiet is_end s (start_execution site elapsed ois s).1
  unfolding start_execution
  Quiet-execution [] s = Quiet-same is_end s s refl
  Quiet-execution (oi ∷ ois) s =
      Quiet-then is_end s (start_integration site elapsed oi s) _ (Quiet-integration oi s)
        (λ _ s1. Quiet-execution ois s1)

  Quiet-run_operation :
      (operation : OperationBase) (s : State W)
      → Quiet is_end s (run_operation site elapsed operation s).1
  unfolding run_operation
  Quiet-run_operation operation s =
      let m = task_message event_execution_initialized (of_operation operation) in
      let m' = task_message event_execution_started (of_operation operation) in
      let s1 = (publish m s).1 in
      let s2 = (publish m' s1).1 in
      Quiet-trans is_end s s1 _ (Quiet-publish is_end m s refl) (
        Quiet-trans is_end s1 s2 _ (Quiet-publish is_end m' s1 refl)
          (Quiet-execution operation.integrations s2))

  -- The messages before the last one, and the last one itself.
  pub EndsWith : State W → State W → OperationBase → Option Error → Type 0
  EndsWith s s' operation e =
      (ms : List Message) × (s'.channel ≡ s.channel ++ (ms ++ operation_finished operation e ∷ []))
      × (count is_end ms ≡ 0)

  end_operation-ends :
      (operation : OperationBase) (r : Result Error (Unit {0}) × State W) (s : State W)
      → Quiet is_end s r.1
      → EndsWith s (end_operation site elapsed operation r).1 operation (error_of r.0)
        × ((end_operation site elapsed operation r).0 ≡ r.0)
  unfolding EndsWith Quiet end_operation publish
  end_operation-ends operation (ok u, s') s (ms, h, c) = (
    (
      ms,
      ap (λ l. l ++ operation_finished operation none ∷ []) h
          ∙ append_assoc s.channel ms (operation_finished operation none ∷ []),
      c,
    ),
    refl,
  )
  end_operation-ends operation (err e, s') s (ms, h, c) = (
    (
      ms,
      ap (λ l. l ++ operation_finished operation (some e) ∷ []) h
          ∙ append_assoc s.channel ms (operation_finished operation (some e) ∷ []),
      c,
    ),
    refl,
  )

  operation_initialized_with-ends :
      (operation : OperationBase) (r : Result Error OperationBase × State W) (s : State W)
      → Quiet is_end s r.1
      → (operation' : OperationBase) × EndsWith s
          (operation_initialized_with site elapsed operation r).1
          operation'
          (error_of (operation_initialized_with site elapsed operation r).0)
  unfolding operation_initialized_with
  operation_initialized_with-ends operation (ok operation', s') s h =
      let r = run_operation site elapsed operation' s' in
      let (ends, same) =
        end_operation-ends operation' r s
          (Quiet-trans is_end s s' r.1 h (Quiet-run_operation operation' s')) in
      (
        operation',
        subst (λ x. EndsWith s (end_operation site elapsed operation' r).1 operation' (error_of x))
            (sym same) ends,
      )
  operation_initialized_with-ends operation (err e, s') s h =
      (operation, (end_operation-ends operation (err e, s') s h).0)

  -- The calls on the repository provider publish nothing.
  after_rollback-channel :
      (provider : RepositoryProvider Error (State W)) (e : Error)
      (r : Result Error (Unit {0}) × State W)
      → (after_rollback {A = Unit {0}} provider e r).1.channel ≡ r.1.channel
  unfolding after_rollback
  after_rollback-channel provider e (ok _, s) = refl
  after_rollback-channel provider e (err e', s) = refl

  after_commit-channel :
      (provider : RepositoryProvider Error W) (r : Result Error (Unit {0}) × State W)
      → (after_commit (on_state site elapsed provider) tt r).1.channel ≡ r.1.channel
  unfolding after_commit on_exception on_state call
  after_commit-channel provider (ok _, s) = refl
  after_commit-channel provider (err e, s) =
      after_rollback-channel (on_state site elapsed provider) e (call provider.rollback s)

  attempt-channel :
      (provider : RepositoryProvider Error W) (r : Result Error (Unit {0}) × State W)
      → (attempt (on_state site elapsed provider) r).1.channel ≡ r.1.channel
  unfolding attempt on_exception on_state call
  attempt-channel provider (ok u, s) = after_commit-channel provider (call provider.commit s)
  attempt-channel provider (err e, s) =
      after_rollback-channel (on_state site elapsed provider) e (call provider.rollback s)

  after_close-channel :
      (provider : RepositoryProvider Error (State W)) (r : Result Error (Unit {0}))
      (closed : Result Error (Unit {0}) × State W)
      → (after_close provider r closed).1.channel ≡ closed.1.channel
  unfolding after_close
  after_close-channel provider r (ok _, s) = refl
  after_close-channel provider r (err e, s) = refl

  start-channel :
      (provider : RepositoryProvider Error W)
      (initialize : OperationBase → W → Result Error OperationBase × W) (operation : OperationBase)
      (s : State W)
      → (start site elapsed provider initialize operation s).1.channel
        ≡ (start_undecorated site elapsed initialize operation s).1.channel
  unfolding start transactionhandler close_after on_state call
  start-channel provider initialize operation s =
      let r = start_undecorated site elapsed initialize operation s in
      let tried = attempt (on_state site elapsed provider) r in
      after_close-channel (on_state site elapsed provider) tried.0 (call provider.close tried.1)
      ∙ attempt-channel provider r

  start_undecorated-ends :
      (initialize : OperationBase → W → Result Error OperationBase × W) (operation : OperationBase)
      (s : State W)
      → (operation' : OperationBase) × EndsWith s
          (start_undecorated site elapsed initialize operation s).1
          operation'
          (error_of (start_undecorated site elapsed initialize operation s).0)
  unfolding start_undecorated call
  start_undecorated-ends initialize operation s =
      let r = call (initialize operation) s in
      operation_initialized_with-ends operation r s (Quiet-same is_end s r.1 refl)

  -- The log messages of threads that are still running when a strategy has returned or raised.
  abbrev pub late_logs : List (OperationIntegration × (String × Option Error)) → List Message
  late_logs late = map (λ l. log_message l.0 l.1) late

  count-late_logs :
      (late : List (OperationIntegration × (String × Option Error))) (k : ℕ)
      → count is_end (take k (late_logs late)) ≡ 0
  count-late_logs [] zero = refl
  count-late_logs [] (suc k) = refl
  count-late_logs (l ∷ late) zero = refl
  count-late_logs (l ∷ late) (suc k) = omega (arith, count-late_logs late k)

  -- The execution of an operation on an empty channel, in every outcome, whatever log messages are
  -- published meanwhile and later by threads that a strategy has left running, and however they are
  -- interleaved: there is one message that is finished, that of the operation's end. It carries the
  -- exception that the function under the transaction handler raises, if it raises one, and behind
  -- it stand log messages of those threads only.
  pub start-EndsOnce :
      (provider : RepositoryProvider Error W)
      (initialize : OperationBase → W → Result Error OperationBase × W) (operation : OperationBase)
      (s : State W) (schedule : List Bool)
      (late : List (OperationIntegration × (String × Option Error)))
      → s.channel ≡ []
      → (operation' : OperationBase) × (before : List Message) × (k : ℕ) × (interleave schedule
            (start site elapsed provider initialize operation s).1.channel
            (late_logs late)
          ≡ before
            ++ operation_finished operation'
                (error_of (start_undecorated site elapsed initialize operation s).0)
              ∷ drop k (late_logs late))
        × (count is_end before ≡ 0)
  unfolding EndsWith
  start-EndsOnce provider initialize operation s schedule late empty =
      let s' = (start site elapsed provider initialize operation s).1 in
      let (operation', (ms, h, c)) = start_undecorated-ends initialize operation s in
      let e = error_of (start_undecorated site elapsed initialize operation s).0 in
      let fin = operation_finished operation' e in
      let own : s'.channel ≡ ms ++ fin ∷ [] =
        start-channel provider initialize operation s ∙ h ∙ ap (λ l. l ++ (ms ++ fin ∷ [])) empty in
      let (k, split) = interleave-last schedule ms fin (late_logs late) in
      let seen = take k (late_logs late) in
      (
        operation',
        interleave schedule ms seen,
        k,
        ap (λ l. interleave schedule l (late_logs late)) own ∙ split,
        omega (arith, count-interleave is_end schedule ms seen, c, count-late_logs late k),
      )

  -- What the operation publishes on an empty channel, interleaved in any way with log messages of
  -- threads that a strategy has left running, reaches the callbacks of its events in the order of
  -- the channel, up to the message of the operation's end; the worker and the listener of the broker
  -- then end, and the log messages of those threads that stand behind it reach no callback. The
  -- subscribers stay as they are, and no callback raises.
  pub start-delivers :
      {C E : Type 0} (provider : RepositoryProvider Error W)
      (initialize : OperationBase → W → Result Error OperationBase × W) (operation : OperationBase)
      (s : State W) (schedule : List Bool)
      (late : List (OperationIntegration × (String × Option Error)))
      (callback : C → Kwargs → Result E (Unit {0})) (subscribers : List (Event × List C))
      → s.channel ≡ []
      → ((c : C) (k : Kwargs) → callback c k ≡ ok tt)
      → (channel : List Message) × (delivered : List Message) × (k : ℕ) × (channel
          ≡ interleave schedule
              (start site elapsed provider initialize operation s).1.channel
              (late_logs late))
        × (channel ≡ delivered ++ drop k (late_logs late))
        × ((forward (map some channel)).at ≡ finished)
        × ((listen callback subscribers (map some (forward (map some channel)).sent)).at ≡ finished)
        × ((listen callback subscribers (map some (forward (map some channel)).sent)).calls
            ≡ all_calls callback subscribers delivered)
  start-delivers provider initialize operation s schedule late callback subscribers empty good =
      let (operation', before, k, split, c) =
        start-EndsOnce provider initialize operation s schedule late empty in
      let e = error_of (start_undecorated site elapsed initialize operation s).0 in
      let fin = operation_finished operation' e in
      let rest = drop k (late_logs late) in
      let (worker, listener, calls) =
        delivers callback good subscribers before fin (map some rest) c refl in
      let whole : map some (before ++ fin ∷ rest) ≡ map some before ++ some fin ∷ map some rest =
        map-append some before (fin ∷ rest) in
      (
        before ++ fin ∷ rest,
        before ++ fin ∷ [],
        k,
        sym split,
        sym (append_assoc before (fin ∷ []) rest),
        rw whole worker,
        rw whole listener,
        rw whole calls,
      )
