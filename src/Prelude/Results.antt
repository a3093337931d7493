-- ===== src/Prelude/Results.antt =====
-- A call that returns a value or raises an exception; `E` is the type of the exceptions.

pub data Result {ℓ} (E A : Type ℓ) : Type ℓ where
  ok : A → Result E A
  err : E → Result E A

infixl 5 ◌>>=◌
abbrev pub ◌>>=◌ {ℓ} : {E A B : Type ℓ} → Result E A → (A → Result E B) → Result E B
ok a >>= f = f a
err e >>= f = err e

-- Calls on a state, one after the other: a call that raises ends the sequence with the state that
-- it leaves.
unfoldable pub and_then {ℓ} :
    {E A B S : Type ℓ} → Result E A × S → (A → S → Result E B × S) → Result E B × S
and_then (ok a, s) k = k a s
and_then (err e, s) k = (err e, s)
