-- ===== src/Pubsub/Subscriptions.antt =====
-- What subscribing and unsubscribing do to the callbacks of every event.
use pdip.Prelude.{
  ◌≡◌, refl, Bool, true, false, not, ◌&&◌, some, List, [], ◌∷◌, ◌++◌, arith, if◌then◌else◌,
  Bool-cases, inl, inr,
}
use pdip.Prelude.Results.{ok}
use pdip.Pubsub.Message.{Event, number, named, event_eq, event_eq_iff, is_truthy}
use pdip.Pubsub.Broker.{
  callbacks_of, is_key, append_to, subscribe, subscribe_to, without, filter_at, unsubscribe,
}

module _ {C : Type 0} where
  not_key_lem : (e : Event) (s : List (Event × List C)) → is_key e s ≡ false → callbacks_of e s ≡ []
  unfolding is_key callbacks_of
  not_key_lem e [] h = refl
  not_key_lem e ((k, cs) ∷ s) h = ground (arith, not_key_lem e s)

  callbacks_of-append_to :
      (e j : Event) (c : C) (s : List (Event × List C))
      → is_key e s ≡ true
      → callbacks_of j (append_to e c s)
        ≡ (if event_eq e j then callbacks_of j s ++ c ∷ [] else callbacks_of j s)
  unfolding is_key callbacks_of append_to
  callbacks_of-append_to e j c [] h = cc
  callbacks_of-append_to e j c ((k, cs) ∷ s) h =
      ground (
        arith,
        callbacks_of-append_to e j c s,
        event_eq_iff e j,
        event_eq_iff k e,
        event_eq_iff k j,
      )

  callbacks_of-snoc :
      (e j : Event) (c : C) (s : List (Event × List C))
      → is_key e s ≡ false
      → callbacks_of j (s ++ (e, c ∷ []) ∷ [])
        ≡ (if event_eq e j then callbacks_of j s ++ c ∷ [] else callbacks_of j s)
  unfolding is_key callbacks_of
  callbacks_of-snoc e j c [] h = ground arith
  callbacks_of-snoc e j c ((k, cs) ∷ s) h =
      ground
        (arith, callbacks_of-snoc e j c s, event_eq_iff e j, event_eq_iff k e, event_eq_iff k j)

  callbacks_of-filter_at :
      (callable : C → Bool) (same : C → C → Bool) (e j : Event) (c : C) (s : List (Event × List C))
      → callbacks_of j (filter_at callable same e c s)
        ≡ (if event_eq e j then without callable same c (callbacks_of j s) else callbacks_of j s)
  unfolding callbacks_of filter_at without
  callbacks_of-filter_at callable same e j c [] = ground arith
  callbacks_of-filter_at callable same e j c ((k, cs) ∷ s) = ground (
    arith,
    callbacks_of-filter_at callable same e j c s,
    event_eq_iff e j,
    event_eq_iff k e,
    event_eq_iff k j,
  )

module _ {C : Type 0} (callable : C → Bool) (same : C → C → Bool) where
  -- A subscription that is accepted puts the callback behind those of its event, and leaves the
  -- callbacks of every other event as they are.
  pub callbacks_of-subscribe :
      (e j : Event) (c : C) (s s' : List (Event × List C))
      → subscribe callable same (some e) c s ≡ ok s'
      → callbacks_of j s' ≡ (if event_eq e j then callbacks_of j s ++ c ∷ [] else callbacks_of j s)
  unfolding subscribe subscribe_to
  callbacks_of-subscribe e j c s s' h = elim (Bool-cases (is_key e s)) [
    | inl old ↦ ground (arith, callbacks_of-append_to e j c s old)
    | inr new ↦ ground (arith, callbacks_of-snoc e j c s new)
  ]

  without_nil : (c : C) → without callable same c [] ≡ []
  unfolding without
  without_nil c = refl

  -- The callbacks that the test keeps.
  abbrev pub kept : (C → Bool) → List C → List C
  kept test [] = []
  kept test (x ∷ xs) = (if test x then x ∷ [] else []) ++ kept test xs

  without-kept : (c : C) (cs : List C) → without callable same c cs ≡ kept (λ x. not (same x c)) cs
  unfolding without
  without-kept c [] = refl
  without-kept c (x ∷ xs) = elim (Bool-cases (same x c)) [
    | inl t ↦ rw (t, without-kept c xs) refl
    | inr f ↦ rw (f, without-kept c xs) refl
  ]

  is_truthy_lem :
      (e : Event) → is_truthy e ≡ not (event_eq e (number 0)) && not (event_eq e (named ""))
  unfolding is_truthy event_eq
  is_truthy_lem (number n) = ground arith
  is_truthy_lem (named t) = refl

  callbacks_of-unsubscribe_truthy :
      (e j : Event) (c : C) (s : List (Event × List C))
      → callbacks_of j (unsubscribe callable same (some e) c s).0 ≡ (
          if is_truthy e && event_eq e j
          then without callable same c (callbacks_of j s)
          else callbacks_of j s)
  unfolding unsubscribe
  callbacks_of-unsubscribe_truthy e j c s = elim (Bool-cases (is_key e s)) [
    | inl old ↦ ground (arith, callbacks_of-filter_at callable same e j c s)
    | inr new ↦ ground (arith, not_key_lem e s new, event_eq_iff e j, without_nil c)
  ]

  -- After `unsubscribe` of a callback from an event that is neither 0 nor the empty text, that event
  -- has the callbacks that it had, in their order, without those identical with the given one; every
  -- other event has what it had, and so has the event 0 or the empty text itself.
  pub callbacks_of-unsubscribe :
      (e j : Event) (c : C) (s : List (Event × List C))
      → callbacks_of j (unsubscribe callable same (some e) c s).0 ≡ (
          if not (event_eq e (number 0)) && not (event_eq e (named "")) && event_eq e j
          then kept (λ x. not (same x c)) (callbacks_of j s)
          else callbacks_of j s)
  callbacks_of-unsubscribe e j c s =
      rw (← is_truthy_lem e, ← without-kept c (callbacks_of j s))
        (callbacks_of-unsubscribe_truthy e j c s)
