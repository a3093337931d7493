-- ===== src/Integration/Transaction.antt =====
-- `transactionhandler` (pdip/data/decorators/transaction_handler.py) around a function on a state
-- that may raise. The repository provider is taken from the container before the `try`.
use pdip.Prelude.Results.{Result, ok, err}

-- What is called on the repository provider; each call may raise.
pub record RepositoryProvider (E S : Type 0) : Type 0 where
  pub commit : S → Result E (Unit {0}) × S
  pub rollback : S → Result E (Unit {0}) × S
  pub close : S → Result E (Unit {0}) × S

module _ {E S A : Type 0} (provider : RepositoryProvider E S) where
  -- The `except` clause, for the exception `e`: one of `rollback` takes its place.
  unfoldable pub after_rollback : E → Result E (Unit {0}) × S → Result E A × S
  after_rollback e (ok _, s) = (err e, s)
  after_rollback e (err e', s) = (err e', s)

  unfoldable pub on_exception : E → S → Result E A × S
  unfolding after_rollback
  on_exception e s = after_rollback e (provider.rollback s)

  unfoldable pub after_commit : A → Result E (Unit {0}) × S → Result E A × S
  unfolding on_exception
  after_commit a (ok _, s) = (ok a, s)
  after_commit a (err e, s) = on_exception e s

  -- The `try` and `except` clauses after `func` has returned or raised.
  unfoldable pub attempt : Result E A × S → Result E A × S
  unfolding after_commit on_exception
  attempt (ok a, s) = after_commit a (provider.commit s)
  attempt (err e, s) = on_exception e s

  -- The `finally` clause: an exception of `close` takes the place of the outcome.
  unfoldable pub after_close : Result E A → Result E (Unit {0}) × S → Result E A × S
  after_close r (ok _, s) = (r, s)
  after_close r (err e, s) = (err e, s)

  unfoldable pub close_after : Result E A × S → Result E A × S
  unfolding after_close
  close_after (r, s) = after_close r (provider.close s)

  unfoldable pub transactionhandler : (S → Result E A × S) → S → Result E A × S
  unfolding attempt close_after
  transactionhandler func s = close_after (attempt (func s))
