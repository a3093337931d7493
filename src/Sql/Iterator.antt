-- ===== src/Sql/Iterator.antt =====
-- `SqlIterator` (pdip/integrator/connection/types/sql/base/sql_iterator.py) over the rows of its
-- query, and the `for` loop that consumes it. `connect` gives the connector a cursor, which stays
-- there when it is closed; what the driver's calls may raise on an open cursor is left out.
use pdip.Prelude.{
  ℕ, zero, suc, ◌+◌, Bool, true, false, Option, none, some, List, [], ◌∷◌, length, take, drop,
  if◌then◌else◌,
}
use pdip.Prelude.Results.{Result, ok, err}
use pdip.Parallel.Domain.{Error, other}

-- The iterator and its connector. `has_cursor` says that the connector's cursor is not None;
-- `cursor` is the iterator's own, with the rows that are still to be fetched, none once closed.
pub record SqlIterator (Row : Type 0) : Type 0 where
  pub has_cursor : Bool
  pub cursor : Option (List Row)
  pub limit : Option ℕ
  pub offset : ℕ
  pub is_finished : Bool

pub data Next (Row : Type 0) : Type 0 where
  yields : List Row → Next Row
  stop_iteration : Next Row
  raises : Error → Next Row

-- What a call on the cursor None raises.
abbrev pub no_cursor : Error
no_cursor = other "AttributeError"

module _ {Row : Type 0} (rows : List Row) where
  -- SqlIterator(connector, query, limit=limit) on a connector without a cursor.
  abbrev pub new : Option ℕ → SqlIterator Row
  new limit = record {
    has_cursor = false;
    cursor = none;
    limit = limit;
    offset = 0;
    is_finished = false;
  }

  -- _initialize
  unfoldable pub initialize : SqlIterator Row → SqlIterator Row
  initialize s =
      if s.has_cursor
      then s
      else record s { is_finished = false; has_cursor = true; cursor = some rows }

  -- `self.cursor.fetchmany(self.limit)`
  unfoldable pub fetch_many : ℕ → List Row → SqlIterator Row → Next Row × SqlIterator Row
  fetch_many limit [] s = (stop_iteration, record s { is_finished = true; cursor = some [] })
  fetch_many limit (x ∷ left) s =
      let batch = take limit (x ∷ left) in
      (
        yields batch,
        record s { cursor = some (drop limit (x ∷ left)); offset = s.offset + length batch },
      )

  -- `self.cursor.fetchall()`
  unfoldable pub fetch_all : List Row → SqlIterator Row → Next Row × SqlIterator Row
  fetch_all left s = (
    yields left,
    record s { is_finished = true; cursor = some []; offset = s.offset + length left },
  )

  -- A limit of 0 is as good as none.
  unfoldable pub fetch : Option ℕ → Option (List Row) → SqlIterator Row → Next Row × SqlIterator Row
  unfolding fetch_many fetch_all
  fetch limit none s = (raises no_cursor, s)
  fetch (some (suc l)) (some left) s = fetch_many (suc l) left s
  fetch (some zero) (some left) s = fetch_all left s
  fetch none (some left) s = fetch_all left s

  -- __next__, after _initialize.
  unfoldable pub next_batch : SqlIterator Row → Next Row × SqlIterator Row
  unfolding fetch
  next_batch s = if s.is_finished then (stop_iteration, s) else fetch s.limit s.cursor s

  -- __next__
  unfoldable pub next : SqlIterator Row → Next Row × SqlIterator Row
  unfolding initialize next_batch
  next s = next_batch (initialize s)

  unfoldable pub add_batch :
      (SqlIterator Row → Option (List (Result Error (List Row))))
      → Next Row × SqlIterator Row
      → Option (List (Result Error (List Row)))
  add_batch rest (yields batch, s) = elim (rest s) [ none ↦ none | some l ↦ some (ok batch ∷ l) ]
  add_batch rest (stop_iteration, s) = some []
  add_batch rest (raises e, s) = some (err e ∷ [])

  -- What the `for` loop sees; `none` where the fuel runs out first.
  unfoldable pub iterate : ℕ → SqlIterator Row → Option (List (Result Error (List Row)))
  unfolding add_batch next
  iterate zero s = none
  iterate (suc fuel) s = add_batch (iterate fuel) (next s)
