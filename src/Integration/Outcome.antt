-- ===== src/Integration/Outcome.antt =====
-- The message with which the execution of an integration ends.
use mathlib.Core.List.{append_assoc}
use pdip.Prelude.{
  ℕ, ◌≡◌, ◌≢◌, ◌⊎◌, inl, inr, refl, ap, ◌∙◌, sym, String, Bool, false, none, some, List, [], ◌∷◌,
  ◌++◌, arith, count, count-append,
}
use pdip.Prelude.Results.{Result, ok, err, and_then}
use pdip.Parallel.Domain.{Error}
use pdip.Pubsub.Message.{number, event_eq}
use pdip.Integration.Domain.{
  OperationIntegration, Text, initialized, said, said_in, Kwargs, Message,
  event_integration_initialized, event_integration_started, event_integration_finished,
}
use pdip.Integration.Messages.{Adapter, get_start_message, get_finish_message, get_error_message}
use pdip.Integration.Adapters.{
  Installation, State, publish, message_of, call, lift, get_adapter, execute,
}
use pdip.Integration.Execution.{
  failed_message, finished_message, on_error, catch, body, initialized_with, start_integration,
}
use pdip.Integration.Quiet.{
  message_with, Quiet, Quiet-same, Quiet-trans, Quiet-publish, Quiet-execute,
}

-- The event of a message is that of the end of an integration.
abbrev pub is_outcome : Message → Bool
is_outcome m = elim m.event [
  | none ↦ false
  | some e ↦ event_eq e (number event_integration_finished)
]

module _ {W : Type 0} (site : Installation W) (elapsed : OperationIntegration → W → String) where
  -- The message, behind messages of other events, is what the second state has more on its channel.
  abbrev pub EndsBy : Message → State W → State W → Type 0
  EndsBy m s s' =
      (ms : List Message) × (s'.channel ≡ s.channel ++ (ms ++ m ∷ [])) × (count is_outcome ms ≡ 0)

  -- An end with a number of rows, and one with the exception.
  abbrev pub Finished : State W → State W → Type 0
  Finished s s' =
      (oi : OperationIntegration) × (t : Text) × (n : ℕ) × EndsBy (finished_message oi t n) s s'

  abbrev pub Failed : Error → State W → State W → Type 0
  Failed e s s' = (oi : OperationIntegration) × (t : String) × EndsBy (failed_message oi t e) s s'

  -- What the `try` clause leaves, and what the execution leaves.
  abbrev Tried : State W → Result Error (Unit {0}) × State W → Type 0
  Tried s (ok u, s') = Finished s s'
  Tried s (err e, s') = Quiet is_outcome s s'

  abbrev pub Outcome : State W → Result Error (Unit {0}) × State W → Type 0
  Outcome s (ok u, s') = Finished s s'
  Outcome s (err e, s') = Quiet is_outcome s s' ⊎ Failed e s s'

  EndsBy-after :
      (m : Message) (s s' s'' : State W) → Quiet is_outcome s s' → EndsBy m s' s'' → EndsBy m s s''
  unfolding Quiet
  EndsBy-after m s s' s'' (ms, h, c) (ms', h', c') = (
    ms ++ ms',
    h'
        ∙ ap (λ l. l ++ (ms' ++ m ∷ [])) h
        ∙ append_assoc s.channel ms (ms' ++ m ∷ [])
        ∙ ap (λ l. s.channel ++ l) (sym (append_assoc ms ms' (m ∷ []))),
    ground (arith, count-append is_outcome ms ms'),
  )

  EndsBy-publish :
      (m : Message) (s s' : State W) → Quiet is_outcome s s' → EndsBy m s (publish m s').1
  unfolding publish
  EndsBy-publish m s s' q = EndsBy-after m s s' (publish m s').1 q ([], refl, refl)

  Tried-after :
      (s s' : State W) (r : Result Error (Unit {0}) × State W)
      → Quiet is_outcome s s'
      → Tried s' r
      → Tried s r
  Tried-after s s' (ok u, s'') q (oi, t, n, h) =
      (oi, t, n, EndsBy-after (finished_message oi t n) s s' s'' q h)
  Tried-after s s' (err e, s'') q h = Quiet-trans is_outcome s s' s'' q h

  Tried-then :
      {A : Type 0} (s : State W) (r : Result Error A × State W)
      (k : A → State W → Result Error (Unit {0}) × State W)
      → Quiet is_outcome s r.1
      → ((a : A) (s' : State W) → Tried s' (k a s'))
      → Tried s (and_then r k)
  unfolding and_then
  Tried-then s (ok a, s') k q h = Tried-after s s' (k a s') q (h a s')
  Tried-then s (err e, s') k q h = q

  Outcome-after :
      (s s' : State W) (r : Result Error (Unit {0}) × State W)
      → Quiet is_outcome s s'
      → Outcome s' r
      → Outcome s r
  Outcome-after s s' (ok u, s'') q (oi, t, n, h) =
      (oi, t, n, EndsBy-after (finished_message oi t n) s s' s'' q h)
  Outcome-after s s' (err e, s'') q (inl h) = inl (Quiet-trans is_outcome s s' s'' q h)
  Outcome-after s s' (err e, s'') q (inr (oi, t, h)) =
      inr (oi, t, EndsBy-after (failed_message oi t e) s s' s'' q h)

  only_end :
      (e : ℕ) (k : Kwargs) → e ≢ event_integration_finished → is_outcome (message_with e k) ≡ false
  unfolding event_eq
  only_end e k h = ground arith

  body-Tried :
      (a : Adapter) (oi : OperationIntegration) (s : State W) → Tried s (body site elapsed a oi s)
  unfolding body publish event_eq
  body-Tried a oi s =
      let begun = get_start_message a oi.integration in
      let ended = get_finish_message a oi.integration in
      let m = message_of event_integration_initialized oi initialized in
      let s1 = (publish m s).1 in
      Tried-after s s1 _ (Quiet-publish is_outcome m s refl) (
        Tried-then s1 (lift begun s1) _ (Quiet-same is_outcome s1 s1 refl) (λ t s2.
          let m = message_of event_integration_started oi (said t) in
          let s3 = (publish m s2).1 in
          Tried-after s2 s3 _ (Quiet-publish is_outcome m s2 refl) (
            Tried-then s3 (execute site a oi s3) _ (Quiet-execute site is_outcome only_end a oi s3)
              (λ n s4. Tried-then s4 (lift ended s4) _ (Quiet-same is_outcome s4 s4 refl) (λ t s5. (
                oi,
                said_in t (elapsed oi s5.world),
                n,
                EndsBy-publish (finished_message oi (said_in t (elapsed oi s5.world)) n) s5 s5
                    (Quiet-same is_outcome s5 s5 refl),
              ))))))

  on_error_with :
      (oi : OperationIntegration) (e : Error) (s s' : State W) (t : Result Error String)
      → Quiet is_outcome s s'
      → Outcome s (
          and_then
            (lift t s')
            (λ t s. and_then (publish (failed_message oi t e) s) (λ _ s. (err e, s))))
  unfolding and_then lift publish
  on_error_with oi e s s' (ok t) q = inr (oi, t, EndsBy-publish (failed_message oi t e) s s' q)
  on_error_with oi e s s' (err x) q = inl q

  catch-Outcome :
      (a : Adapter) (oi : OperationIntegration) (s : State W)
      (r : Result Error (Unit {0}) × State W)
      → Tried s r
      → Outcome s (catch site elapsed a oi r)
  unfolding catch on_error
  catch-Outcome a oi s (ok u, s') h = h
  catch-Outcome a oi s (err e, s') h =
      on_error_with oi e s s' (get_error_message a oi.integration) h

  initialized_with-Outcome :
      (a : Adapter) (oi : OperationIntegration) (s : State W)
      (r : Result Error OperationIntegration × State W)
      → Quiet is_outcome s r.1
      → Outcome s (initialized_with site elapsed a oi r)
  unfolding initialized_with on_error
  initialized_with-Outcome a oi s (ok oi', s') q =
      Outcome-after s s' (catch site elapsed a oi' (body site elapsed a oi' s')) q
        (catch-Outcome a oi' s' (body site elapsed a oi' s') (body-Tried a oi' s'))
  initialized_with-Outcome a oi s (err e, s') q =
      on_error_with oi e s s' (get_error_message a oi.integration) q

  start_with :
      (oi : OperationIntegration) (s : State W) (a : Result Error Adapter)
      → Outcome s (
          and_then
            (lift a s)
            (λ a s. initialized_with site elapsed a oi (call (site.initialize_integration oi) s)))
  unfolding and_then lift call
  start_with oi s (ok a) =
      initialized_with-Outcome a oi s (call (site.initialize_integration oi) s)
        (Quiet-same is_outcome s (call (site.initialize_integration oi) s).1 refl)
  start_with oi s (err e) = inl (Quiet-same is_outcome s s refl)

  pub start_integration-Outcome :
      (oi : OperationIntegration) (s : State W) → Outcome s (start_integration site elapsed oi s)
  unfolding start_integration
  start_integration-Outcome oi s = start_with oi s (get_adapter oi.integration)
