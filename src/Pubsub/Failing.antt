-- ===== src/Pubsub/Failing.antt =====
-- A callback that raises, behind messages whose callbacks return.
use mathlib.Core.List.{append_assoc}
use pdip.Prelude.{
  ◌≡◌, refl, ap, sym, ◌∙◌, true, false, Option, none, some, List, [], ◌∷◌, ◌++◌, map, arith,
}
use pdip.Prelude.Results.{Result, ok, err}
use pdip.Pubsub.Message.{Event, TaskMessage}
use pdip.Pubsub.Threads.{
  failed, Handled, call_all, subscribed, after_call, after_warning, handle, listen,
}
use pdip.Pubsub.Delivery.{calls_for, all_calls}

module _ {C K E : Type 0} (call : C → K → Result E (Unit {0})) where
  -- Each of the callbacks returns.
  abbrev pub Return : K → List C → Type 0
  Return k [] = Unit
  Return k (c ∷ cs) = (call c k ≡ ok tt) × Return k cs

  abbrev pub ReturnIn : K → Option (List C) → Type 0
  ReturnIn k none = Unit
  ReturnIn k (some cs) = Return k cs

  -- No message is finished, and each callback of each of them returns.
  abbrev pub AllReturn : List (Event × List C) → List (TaskMessage K) → Type 0
  AllReturn s [] = Unit
  AllReturn s (m ∷ ms) =
      (m.is_finished ≡ false) × ReturnIn m.kwargs (subscribed call m.event s) × AllReturn s ms

  call_all-Return :
      (k : K) (cs : List C) → Return k cs → call_all call k cs ≡ (map (λ c. (c, k)) cs, false)
  unfolding call_all
  call_all-Return k [] r = refl
  call_all-Return k (c ∷ cs) (h, r) = ground (arith, h, call_all-Return k cs r)

  call_all-raises :
      (k : K) (before after : List C) (c : C) (e : E)
      → Return k before
      → call c k ≡ err e
      → call_all call k (before ++ c ∷ after) ≡ (map (λ x. (x, k)) before ++ (c, k) ∷ [], true)
  unfolding call_all
  call_all-raises k [] after c e r h = rw h refl
  call_all-raises k (b ∷ before) after c e (hb, r) h =
      rw (hb, call_all-raises k before after c e r h) refl

  handle-ReturnIn :
      (m : TaskMessage K) (o : Option (List C)) (later : Handled C K)
      → m.is_finished ≡ false
      → ReturnIn m.kwargs o
      → ((handle call m o later).calls ≡ calls_for m.kwargs o ++ later.calls)
        × ((handle call m o later).at ≡ later.at)
  unfolding handle after_call after_warning
  handle-ReturnIn m none later f r = rw f (refl, refl)
  handle-ReturnIn m (some cs) later f r = rw (f, call_all-Return m.kwargs cs r) (refl, refl)

  -- Behind messages that are not finished and whose callbacks all return, stands a message with a
  -- callback that raises, while those before it return. The listener makes exactly the calls of the
  -- earlier messages, then those of this message up to the one that raises, and ends there: no later
  -- callback and no later message, the end of the operation included, is handled.
  pub listen-raises :
      (s : List (Event × List C)) (ms : List (TaskMessage K)) (m : TaskMessage K)
      (before after : List C) (c : C) (e : E) (rest : List (Option (TaskMessage K)))
      → AllReturn s ms
      → subscribed call m.event s ≡ some (before ++ c ∷ after)
      → Return m.kwargs before
      → call c m.kwargs ≡ err e
      → ((listen call s (map some ms ++ some m ∷ rest)).at ≡ failed)
        × ((listen call s (map some ms ++ some m ∷ rest)).calls
            ≡ all_calls call s ms ++ (map (λ x. (x, m.kwargs)) before ++ (c, m.kwargs) ∷ []))
  unfolding listen handle after_call
  listen-raises s [] m before after c e rest all h r bad = raised (listen call s rest)
    where
      raised :
          (later : Handled C K)
          → ((handle call m (subscribed call m.event s) later).at ≡ failed)
            × ((handle call m (subscribed call m.event s) later).calls
                ≡ map (λ x. (x, m.kwargs)) before ++ (c, m.kwargs) ∷ [])
      raised later = rw (h, call_all-raises m.kwargs before after c e r bad) (refl, refl)
  listen-raises s (x ∷ ms) m before after c e rest (f, now, all) h r bad =
      let later = listen call s (map some ms ++ some m ∷ rest) in
      let (calls, at) = handle-ReturnIn x (subscribed call x.event s) later f now in
      let (at', calls') = listen-raises s ms m before after c e rest all h r bad in
      let wanted = calls_for x.kwargs (subscribed call x.event s) in
      (
        at ∙ at',
        calls
            ∙ ap (λ l. wanted ++ l) calls'
            ∙ sym (
                append_assoc wanted (all_calls call s ms)
                  (map (λ x. (x, m.kwargs)) before ++ (c, m.kwargs) ∷ [])),
      )
