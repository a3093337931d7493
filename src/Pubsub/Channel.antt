-- ===== src/Pubsub/Channel.antt =====
-- The channel on which several threads publish (pdip/integrator/pubsub/base/channel_queue.py): what
-- one thread puts on it, interleaved with what the others put. A schedule says at each place who is
-- next, `true` being the first one's turn; where it ends, the first one goes on, and the others
-- follow.
use mathlib.Core.List.{append-nil, append_assoc}
use pdip.Prelude.{
  ℕ, suc, ◌+◌, ◌≡◌, refl, ap, sym, ◌∙◌, Bool, true, false, List, [], ◌∷◌, ◌++◌, take, drop, arith,
  count, count-append,
}

module _ {A : Type 0} where
  unfoldable pub interleave : List Bool → List A → List A → List A
  interleave schedule [] others = others
  interleave [] (x ∷ own) others = x ∷ own ++ others
  interleave (true ∷ schedule) (x ∷ own) others = x ∷ interleave schedule own others
  interleave (false ∷ schedule) (x ∷ own) [] = x ∷ own
  interleave (false ∷ schedule) (x ∷ own) (o ∷ others) = o ∷ interleave schedule (x ∷ own) others

  -- Behind the last element of the first thread stand only elements of the others, in their order.
  pub interleave-last :
      (schedule : List Bool) (own : List A) (x : A) (others : List A)
      → (k : ℕ) × (interleave schedule (own ++ x ∷ []) others
          ≡ interleave schedule own (take k others) ++ x ∷ drop k others)
  unfolding interleave
  interleave-last [] [] x others = (0, refl)
  interleave-last (true ∷ schedule) [] x others = (0, refl)
  interleave-last (false ∷ schedule) [] x [] = (0, refl)
  interleave-last (false ∷ schedule) [] x (o ∷ others) =
      let (k, e) = interleave-last schedule [] x others in (suc k, ap (λ l. o ∷ l) e)
  interleave-last [] (y ∷ own) x others = (
    0,
    ap (λ l. y ∷ l)
        (append_assoc own (x ∷ []) others ∙ ap (λ l. l ++ x ∷ others) (sym (append-nil own))),
  )
  interleave-last (true ∷ schedule) (y ∷ own) x others =
      let (k, e) = interleave-last schedule own x others in (k, ap (λ l. y ∷ l) e)
  interleave-last (false ∷ schedule) (y ∷ own) x [] = (0, refl)
  interleave-last (false ∷ schedule) (y ∷ own) x (o ∷ others) =
      let (k, e) = interleave-last schedule (y ∷ own) x others in (suc k, ap (λ l. o ∷ l) e)

  pub count-interleave :
      (p : A → Bool) (schedule : List Bool) (own others : List A)
      → count p (interleave schedule own others) ≡ count p own + count p others
  unfolding interleave
  count-interleave p schedule [] others = omega arith
  count-interleave p [] (x ∷ own) others = count-append p (x ∷ own) others
  count-interleave p (true ∷ schedule) (x ∷ own) others =
      ground (arith, count-interleave p schedule own others)
  count-interleave p (false ∷ schedule) (x ∷ own) [] = ground arith
  count-interleave p (false ∷ schedule) (x ∷ own) (o ∷ others) =
      ground (arith, count-interleave p schedule (x ∷ own) others)
