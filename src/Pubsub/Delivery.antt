-- ===== src/Pubsub/Delivery.antt =====
-- What reaches the subscribers.
use pdip.Prelude.{
  ◌≡◌, refl, ap, ◌∙◌, Bool, true, false, Option, none, some, List, [], ◌∷◌, ◌++◌, map, arith, count,
  if◌then◌else◌,
}
use mathlib.Core.List.{append-nil}
use pdip.Prelude.Results.{Result, ok}
use pdip.Pubsub.Message.{Event, TaskMessage}
use pdip.Pubsub.Threads.{
  finished, Handled, forward, call_all, subscribed, after_call, after_warning, handle, listen,
}

module _ {C K : Type 0} where
  -- The calls that one message asks for, and those of several messages, in their order.
  abbrev pub calls_for : K → Option (List C) → List (C × K)
  calls_for kwargs none = []
  calls_for kwargs (some cs) = map (λ c. (c, kwargs)) cs

module _ {K : Type 0} where
  -- Messages up to the first that is finished go on in their order, and then the worker ends.
  forward-finished :
      (ms : List (TaskMessage K)) (fin : TaskMessage K) (rest : List (Option (TaskMessage K)))
      → count (λ m. m.is_finished) ms ≡ 0
      → fin.is_finished ≡ true
      → forward (map some ms ++ some fin ∷ rest) ≡ record { sent = ms ++ fin ∷ []; at = finished }
  unfolding forward
  forward-finished [] fin rest h f = rw f
  forward-finished (m ∷ ms) fin rest h f = ground (arith, forward-finished ms fin rest)

module _ {C K E : Type 0} (call : C → K → Result E (Unit {0})) where
  abbrev pub all_calls : List (Event × List C) → List (TaskMessage K) → List (C × K)
  all_calls s [] = []
  all_calls s (m ∷ ms) = calls_for m.kwargs (subscribed call m.event s) ++ all_calls s ms

  call_all-ok :
      ((c : C) (k : K) → call c k ≡ ok tt)
      → (k : K) (cs : List C) → call_all call k cs ≡ (map (λ c. (c, k)) cs, false)
  unfolding call_all
  call_all-ok good k [] = refl
  call_all-ok good k (c ∷ cs) = ground (arith, good c k, call_all-ok good k cs)

  handle-ok :
      ((c : C) (k : K) → call c k ≡ ok tt)
      → (m : TaskMessage K) (o : Option (List C)) (later : Handled C K)
      → ((handle call m o later).calls
          ≡ calls_for m.kwargs o ++ (if m.is_finished then [] else later.calls))
        × ((handle call m o later).at ≡ (if m.is_finished then finished else later.at))
  unfolding handle after_call after_warning
  handle-ok good m none later = ground arith
  handle-ok good m (some cs) later = rw (call_all-ok good m.kwargs cs) (ended m.is_finished)
    where
      ended :
          (b : Bool)
          → ((after_call call (map (λ c. (c, m.kwargs)) cs, false) b later).calls
              ≡ map (λ c. (c, m.kwargs)) cs ++ (if b then [] else later.calls))
            × ((after_call call (map (λ c. (c, m.kwargs)) cs, false) b later).at
                ≡ (if b then finished else later.at))
      ended true = rw append-nil (refl, refl)
      ended false = (refl, refl)

  listen-finished :
      ((c : C) (k : K) → call c k ≡ ok tt)
      → (s : List (Event × List C)) (ms : List (TaskMessage K)) (fin : TaskMessage K)
      → count (λ m. m.is_finished) ms ≡ 0
      → fin.is_finished ≡ true
      → ((listen call s (map some (ms ++ fin ∷ []))).calls ≡ all_calls s (ms ++ fin ∷ []))
        × ((listen call s (map some (ms ++ fin ∷ []))).at ≡ finished)
  unfolding listen
  listen-finished good s [] fin h f =
      let (c, a) = handle-ok good fin (subscribed call fin.event s) (listen call s []) in
      (
        c
            ∙ ap
                (λ b.
                  calls_for fin.kwargs (subscribed call fin.event s)
                  ++ (if b then [] else (listen call s []).calls))
                f,
        a ∙ ap (λ b. if b then finished else (listen call s []).at) f,
      )
  listen-finished good s (m ∷ ms) fin h f =
      let open_m : m.is_finished ≡ false = ground arith in
      let (c, a) =
        handle-ok good m (subscribed call m.event s) (listen call s (map some (ms ++ fin ∷ []))) in
      let (cs, ends) = listen-finished good s ms fin (ground arith) f in
      let later = listen call s (map some (ms ++ fin ∷ [])) in
      let wanted = calls_for m.kwargs (subscribed call m.event s) in
      (
        c ∙ ap (λ b. wanted ++ (if b then [] else later.calls)) open_m ∙ ap (λ l. wanted ++ l) cs,
        a ∙ ap (λ b. if b then finished else later.at) open_m ∙ ends,
      )

  -- Every message that is published up to the first finished one reaches, in the order of
  -- publication, each callback of its event in the order of subscription, and nothing else is
  -- called; both threads then end. The subscribers stay as they are, and no callback raises.
  pub delivers :
      ((c : C) (k : K) → call c k ≡ ok tt)
      → (s : List (Event × List C)) (ms : List (TaskMessage K)) (fin : TaskMessage K)
        (rest : List (Option (TaskMessage K)))
      → count (λ m. m.is_finished) ms ≡ 0
      → fin.is_finished ≡ true
      → ((forward (map some ms ++ some fin ∷ rest)).at ≡ finished)
        × ((listen call s (map some (forward (map some ms ++ some fin ∷ rest)).sent)).at ≡ finished)
        × ((listen call s (map some (forward (map some ms ++ some fin ∷ rest)).sent)).calls
            ≡ all_calls s (ms ++ fin ∷ []))
  delivers good s ms fin rest h f =
      let (calls, at) = listen-finished good s ms fin h f in
      rw (forward-finished ms fin rest h f) (refl, at, calls)
