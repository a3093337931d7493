-- ===== src/BigData/Iterator.antt =====
-- `BigDataIterator` (pdip/integrator/connection/types/bigdata/base/big_data_iterator.py). It opens
-- its cursor and fetches a batch with a limit as `SqlIterator` does.
use pdip.Prelude.{ℕ, zero, suc, ◌≡◌, refl, true, Option, none, some, List, [], ◌∷◌, if◌then◌else◌}
use pdip.Prelude.Results.{Result, err}
use pdip.Parallel.Domain.{Error, other}
use pdip.Sql.Iterator.{
  SqlIterator, Next, stop_iteration, raises, no_cursor, new, initialize, fetch_many, add_batch,
}

module _ {Row : Type 0} (rows : List Row) where
  -- `self.cursor.fetchall()`; then a count is added to an attribute that does not exist.
  unfoldable pub fetch_all : List Row → SqlIterator Row → Next Row × SqlIterator Row
  fetch_all left s =
      (raises (other "AttributeError"), record s { is_finished = true; cursor = some [] })

  -- A limit of 0 is as good as none.
  unfoldable pub fetch : Option ℕ → Option (List Row) → SqlIterator Row → Next Row × SqlIterator Row
  unfolding fetch_all fetch_many
  fetch limit none s = (raises no_cursor, s)
  fetch (some (suc l)) (some left) s = fetch_many rows (suc l) left s
  fetch (some zero) (some left) s = fetch_all left s
  fetch none (some left) s = fetch_all left s

  -- __next__, after _initialize.
  unfoldable pub next_batch : SqlIterator Row → Next Row × SqlIterator Row
  unfolding fetch
  next_batch s = if s.is_finished then (stop_iteration, s) else fetch s.limit s.cursor s

  -- __next__
  unfoldable pub next : SqlIterator Row → Next Row × SqlIterator Row
  unfolding initialize next_batch
  next s = next_batch (initialize rows s)

  -- What the `for` loop sees; `none` where the fuel runs out first.
  unfoldable pub iterate : ℕ → SqlIterator Row → Option (List (Result Error (List Row)))
  unfolding add_batch next
  iterate zero s = none
  iterate (suc fuel) s = add_batch rows (iterate fuel) (next s)

  -- Without a limit, or with a limit of 0, the loop over a new iterator gets no row: its first
  -- round raises an AttributeError, whatever the rows are.
  pub iterate-no_limit :
      (fuel : ℕ) → iterate (suc fuel) (new rows none) ≡ some (err (other "AttributeError") ∷ [])
  unfolding iterate next initialize next_batch fetch fetch_all add_batch
  iterate-no_limit fuel = refl
