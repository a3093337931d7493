-- ===== src/Integration/Quiet.antt =====
-- Which messages the adapters leave on the channel.
use mathlib.Core.List.{append_assoc, append-nil}
use pdip.Prelude.{
  ℕ, ◌≡◌, ◌≢◌, refl, ap, ◌∙◌, sym, String, Bool, true, false, Option, none, some, List, [], ◌∷◌,
  ◌++◌, map, arith, count, count-append,
}
use pdip.Prelude.Results.{Result, ok, err, and_then}
use pdip.Parallel.Domain.{Error}
use pdip.Pubsub.Message.{number}
use pdip.Integration.Domain.{
  ConnectionType, OperationIntegration, of_integration, will_execute_on, source_has, Strategy,
  Kwargs, Message, event_log, event_execute_truncate, event_execute_target, event_execute_source,
  event_integration_finished,
}
use pdip.Integration.Messages.{
  Adapter, source_integration, target_integration, source_to_target_integration,
}
use pdip.Integration.Adapters.{
  Installation, State, publish, publish_count, message_of, log_message, call, lift, truncate,
  run_strategy, get_strategy, connection_adapter, execute_source_to_target, execute_target,
  execute_source, execute,
}

-- A message that is not the end of its operation.
abbrev pub message_with : ℕ → Kwargs → Message
message_with e k = record { event = some (number e); is_finished = false; kwargs = k }

abbrev counted : OperationIntegration → ℕ → Kwargs
counted oi n = record {
  subject = of_integration oi;
  message = none;
  row_count = some n;
  data_count = none;
  exception = none;
}

module _ {W : Type 0} (p : Message → Bool) where
  -- The channel of the second state is that of the first with messages behind it, none of which
  -- has the property.
  unfoldable pub Quiet : State W → State W → Type 0
  Quiet s s' = (ms : List Message) × (s'.channel ≡ s.channel ++ ms) × (count p ms ≡ 0)

  pub Quiet-same : (s s' : State W) → s'.channel ≡ s.channel → Quiet s s'
  unfolding Quiet
  Quiet-same s s' h = ([], h ∙ sym (append-nil s.channel), refl)

  pub Quiet-trans : (s s' s'' : State W) → Quiet s s' → Quiet s' s'' → Quiet s s''
  unfolding Quiet
  Quiet-trans s s' s'' (ms, h, c) (ms', h', c') = (
    ms ++ ms',
    h' ∙ ap (λ l. l ++ ms') h ∙ append_assoc s.channel ms ms',
    ground (arith, count-append p ms ms'),
  )

  pub Quiet-publish : (m : Message) (s : State W) → p m ≡ false → Quiet s (publish m s).1
  unfolding Quiet publish
  Quiet-publish m s h = (m ∷ [], refl, ground arith)

  pub Quiet-then :
      {A B : Type 0} (s : State W) (r : Result Error A × State W)
      (k : A → State W → Result Error B × State W)
      → Quiet s r.1
      → ((a : A) (s' : State W) → Quiet s' (k a s').1)
      → Quiet s (and_then r k).1
  unfolding and_then
  Quiet-then s (ok a, s') k h g = Quiet-trans s s' (k a s').1 h (g a s')
  Quiet-then s (err e, s') k h g = h

module _ {W : Type 0} (site : Installation W) (p : Message → Bool)
    (plain : (e : ℕ) (k : Kwargs)
      → e ≢ event_integration_finished
      → p (message_with e k) ≡ false) where
  Quiet-call : {A : Type 0} (f : W → Result Error A × W) (s : State W) → Quiet p s (call f s).1
  unfolding call
  Quiet-call f s = Quiet-same p s (call f s).1 refl

  Quiet-lift : {A : Type 0} (r : Result Error A) (s : State W) → Quiet p s (lift r s).1
  unfolding lift
  Quiet-lift r s = Quiet-same p s s refl

  Quiet-count :
      (e : ℕ) (oi : OperationIntegration) (n : ℕ) (s : State W)
      → e ≢ event_integration_finished
      → Quiet p s (publish_count e oi n s).1
  unfolding publish_count
  Quiet-count e oi n s h =
      Quiet-publish p (message_with e (counted oi n)) s (plain e (counted oi n) h)

  Quiet-truncate :
      (b : Bool) (t : ConnectionType) (oi : OperationIntegration) (s : State W)
      → Quiet p s (truncate site b t oi s).1
  unfolding truncate
  Quiet-truncate false t oi s = Quiet-same p s s refl
  Quiet-truncate true t oi s =
      Quiet-then p s (call (site.clear_data t oi.integration) s) _
        (Quiet-call (site.clear_data t oi.integration) s)
        (λ n s'. Quiet-count event_execute_truncate oi n s' (λ h. omega arith))

  count-logs :
      (oi : OperationIntegration) (l : List (String × Option Error))
      → count p (map (log_message oi) l) ≡ 0
  count-logs oi [] = refl
  count-logs oi ((t, e) ∷ l) =
      let h = plain event_log (log_message oi (t, e)).kwargs (λ h. omega arith) in
      let rest = count-logs oi l in ground arith

  Quiet-strategy :
      (strategy : Strategy) (oi : OperationIntegration) (s : State W)
      → Quiet p s (run_strategy site strategy oi s).1
  unfolding Quiet run_strategy
  Quiet-strategy strategy oi s = (
    map (log_message oi) (site.logs strategy oi s.world),
    refl,
    count-logs oi (site.logs strategy oi s.world),
  )

  -- A call whose answer is counted in a message and returned.
  Quiet-counted :
      (e : ℕ) (oi : OperationIntegration) (s : State W) (r : Result Error ℕ × State W)
      → e ≢ event_integration_finished
      → Quiet p s r.1
      → Quiet p s (and_then r (λ n s'. and_then (publish_count e oi n s') (λ _ s''. (ok n, s'')))).1
  Quiet-counted e oi s r h q = Quiet-then p s r _ q (λ n s'.
      Quiet-then p s' (publish_count e oi n s') _ (Quiet-count e oi n s' h)
        (λ _ s''. Quiet-same p s'' s'' refl))

  Quiet-source_to_target :
      (oi : OperationIntegration) (s : State W) → Quiet p s (execute_source_to_target site oi s).1
  unfolding execute_source_to_target
  Quiet-source_to_target oi s =
      let found = connection_adapter oi.integration.target_connections in
      let chosen = get_strategy oi.process_count false in
      Quiet-then p s (lift found s) _ (Quiet-lift found s) (λ t s1.
        Quiet-then p s1 (truncate site oi.integration.is_target_truncate t oi s1) _
          (Quiet-truncate oi.integration.is_target_truncate t oi s1)
          (λ _ s2. Quiet-then p s2 (lift chosen s2) _ (Quiet-lift chosen s2) (λ strategy s3.
            let m =
              message_of event_log oi
                (will_execute_on oi.order strategy oi.process_count oi.limit) in
            let s4 = (publish m s3).1 in
            Quiet-trans p s3 s4 _
              (Quiet-publish p m s3 (plain event_log m.kwargs (λ h. omega arith)))
              (Quiet-counted event_execute_source oi s4 (run_strategy site strategy oi s4)
                (λ h. omega arith) (Quiet-strategy strategy oi s4)))))

  Quiet-target : (oi : OperationIntegration) (s : State W) → Quiet p s (execute_target site oi s).1
  unfolding execute_target
  Quiet-target oi s =
      let found = connection_adapter oi.integration.target_connections in
      Quiet-then p s (lift found s) _ (Quiet-lift found s) (λ t s1.
        Quiet-then p s1 (truncate site oi.integration.is_target_truncate t oi s1) _
          (Quiet-truncate oi.integration.is_target_truncate t oi s1)
          (λ _ s2.
            Quiet-counted event_execute_target oi s2
              (call (site.do_target_operation t oi.integration) s2) (λ h. omega arith)
              (Quiet-call (site.do_target_operation t oi.integration) s2)))

  Quiet-source : (oi : OperationIntegration) (s : State W) → Quiet p s (execute_source site oi s).1
  unfolding execute_source
  Quiet-source oi s =
      let found = connection_adapter oi.integration.source_connections in
      Quiet-then p s (lift found s) _ (Quiet-lift found s) (λ t s1.
        Quiet-then p s1 (call (site.get_source_data_count t oi.integration) s1) _
          (Quiet-call (site.get_source_data_count t oi.integration) s1)
          (λ n s2.
            let m = message_of event_log oi (source_has oi.order n) in
            Quiet-publish p m s2 (plain event_log m.kwargs (λ h. omega arith))))

  pub Quiet-execute :
      (a : Adapter) (oi : OperationIntegration) (s : State W) → Quiet p s (execute site a oi s).1
  unfolding execute
  Quiet-execute source_integration oi s = Quiet-source oi s
  Quiet-execute target_integration oi s = Quiet-target oi s
  Quiet-execute source_to_target_integration oi s = Quiet-source_to_target oi s
