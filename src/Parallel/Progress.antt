-- ===== src/Parallel/Progress.antt =====
-- The parallel strategy cannot deadlock, and every schedule makes a bounded number of moves.
use pdip.Prelude.{
  ℕ, zero, suc, ◌+◌, ◌-◌, ◌*◌, ◌<◌, ◌≤◌, ◌≡◌, refl, ap, subst, ◌⊎◌, inl, inr, Bool, true, false,
  not, Option, none, some, List, [], ◌∷◌, arith, length, get_elem?, set, count, sum_of, sum_of-set,
  sum_of-replicate, length-snoc, Bool-cases, if_ind, ltb, leb,
}
use native.Mathlib.Decide.{ℕ_discrete}
use pdip.Parallel.Domain.{Error, DataQueueTask, finish_task, Site}
use pdip.Parallel.State.{
  Cursor, Reader, counting, checking, awaiting, closing, finished, failing, Writer, waiting,
  working, returned, Run,
}
use pdip.Prelude.Results.{Result, ok, err}
use pdip.Parallel.Reader.{past_end, advance, resume, read_count, put_window, take_result, read_step}
use pdip.Parallel.Writer.{
  raise_from, source_error, process, fail, finish, report, get_task, handle, write_step,
}
use pdip.Parallel.Schedule.{Thread, source, target, initial, step, or_stay, moves, limited, reached}
use pdip.Parallel.Invariant.{
  IsFaithful, Position, fins_left, fin_task, fin_writer, returned_of, failed_of, of_task, failed,
  Inv,
}
use pdip.Parallel.Invariant.ReaderSteps.{OnSome}
use pdip.Parallel.Outcome.{Reachable, initial-Reachable, step-Reachable, schedule-Reachable}

abbrev waiting_of : {Row : Type 0} → Writer Row → ℕ
waiting_of (waiting total) = 1
waiting_of (working total t) = 0
waiting_of (returned total) = 0
waiting_of (Writer.raised e) = 0

module _ {Row : Type 0} where
  -- A writer is at one of its four points.
  writer_points :
      (ws : List (Writer Row))
      → sum_of waiting_of ws
          + sum_of (of_task (λ _. 1)) ws
          + sum_of returned_of ws
          + sum_of failed_of ws
        ≡ length ws
  writer_points [] = refl
  writer_points (waiting k ∷ ws) = omega (arith, writer_points ws)
  writer_points (working k t ∷ ws) = omega (arith, writer_points ws)
  writer_points (returned k ∷ ws) = omega (arith, writer_points ws)
  writer_points (Writer.raised e ∷ ws) = omega (arith, writer_points ws)

  -- A count of writers is zero where each writer counts zero.
  sum_of_zero :
      (f : Writer Row → ℕ) (ws : List (Writer Row))
      → ((i : ℕ) (w : Writer Row) → get_elem? ws i ≡ some w → f w ≡ 0)
      → sum_of f ws ≡ 0
  sum_of_zero f [] h = refl
  sum_of_zero f (w ∷ ws) h = omega (arith, h 0 w refl, sum_of_zero f ws (λ i. h (suc i)))

  fins-eq_returned :
      (ws : List (Writer Row))
      → sum_of (of_task (λ _. 1)) ws ≡ 0
      → sum_of fin_writer ws ≡ sum_of returned_of ws
  fins-eq_returned [] h = refl
  fins-eq_returned (waiting k ∷ ws) h = omega (arith, fins-eq_returned ws (omega arith))
  fins-eq_returned (working k t ∷ ws) h = absurd (omega arith)
  fins-eq_returned (returned k ∷ ws) h = omega (arith, fins-eq_returned ws (omega arith))
  fins-eq_returned (Writer.raised e ∷ ws) h = omega (arith, fins-eq_returned ws (omega arith))

  fins-le-length : (q : List (DataQueueTask Row)) → sum_of fin_task q ≤ length q
  fins-le-length [] = omega arith
  fins-le-length (t ∷ q) = ground (arith, fins-le-length q)

module _ {Row : Type 0} (site : Site Row) (signal : ℕ → Bool) (rows : List Row) (l n : ℕ)
    (before : List Row) (p : Row → Bool) where
  -- A writer that cannot move holds no task, and waits only at an empty queue.
  stuck_writer :
      (r : Run Row) (i : ℕ) (w : Writer Row)
      → write_step site signal i (some w) r ≡ none
      → (of_task (λ _. 1) w ≡ 0) × ((waiting_of w ≡ 0) ⊎ (length r.data_queue ≡ 0))
  unfolding write_step get_task
  stuck_writer r i (waiting k) h = (refl, ground arith)
  stuck_writer r i (working k t) h = cc
  stuck_writer r i (returned k) h = (refl, inl refl)
  stuck_writer r i (Writer.raised e) h = (refl, inl refl)

  -- What stands still when no writer can move.
  stuck_writers :
      (r : Run Row)
      → ((i : ℕ) → step site signal (limited n l) (target i) r ≡ none)
      → (sum_of (of_task (λ _. 1)) r.writers ≡ 0)
        × ((sum_of waiting_of r.writers ≡ 0) ⊎ (length r.data_queue ≡ 0))
  unfolding step
  stuck_writers r h = (
    sum_of_zero (of_task (λ _. 1)) r.writers (λ i w g. (stuck i w g).0),
    elim (ℕ_discrete (length r.data_queue) 0) [
      | yes empty ↦ inr empty
      | no some_tasks ↦ inl (
          sum_of_zero waiting_of r.writers
            (λ i w g. elim (stuck i w g).1 [ inl e ↦ e | inr empty ↦ absurd (some_tasks empty) ]))
    ],
  )
    where
      stuck :
          (i : ℕ) (w : Writer Row)
          → get_elem? r.writers i ≡ some w
          → (of_task (λ _. 1) w ≡ 0) × ((waiting_of w ≡ 0) ⊎ (length r.data_queue ≡ 0))
      stuck i w g = stuck_writer r i w (subst (λ o. write_step site signal i o r ≡ none) g (h i))

  no_result :
      (c : Cursor) (r : Run Row) (q : List Bool)
      → take_result site (limited n l) c q r ≡ none
      → q ≡ []
  unfolding take_result
  no_result c r [] h = refl
  no_result c r (true ∷ q) h = cc
  no_result c r (false ∷ q) h = cc

  stuck_reader :
      (r : Run Row) (rd : Reader)
      → 0 < n
      → r.reader ≡ rd
      → read_step site (limited n l) rd r ≡ none
      → ((i : ℕ) → step site signal (limited n l) (target i) r ≡ none)
      → Inv rows l n before p r
      → (rd ≡ finished) × (sum_of returned_of r.writers + failed r ≡ n)
  unfolding read_step take_result
  stuck_reader r counting n_pos e h still v = cc
  stuck_reader r (checking c) n_pos e h still v = ground (arith)
  stuck_reader r (awaiting c) n_pos e h still v =
      let place = subst (λ x. Position (length rows) l n v.handed x r) e v.position in
      let (idle, waits) = stuck_writers r still in
      let points = writer_points r.writers in
      let fins = fins-eq_returned r.writers idle in
      let left = ap (fins_left n) e in
      let empty : r.data_result_queue ≡ [] = no_result c r r.data_result_queue h in
      let none_there = ap length empty in
      let no_false = ap (count not) empty in absurd (omega (arith, v.fins, v.size))
  stuck_reader r (closing zero) n_pos e h still v = cc
  stuck_reader r (closing (suc k)) n_pos e h still v = cc
  stuck_reader r finished n_pos e h still v =
      let (idle, waits) = stuck_writers r still in
      let points = writer_points r.writers in
      let fins = fins-eq_returned r.writers idle in
      let left = ap (fins_left n) e in
      (refl, omega (arith, v.fins, v.size, fins-le-length r.data_queue))
  stuck_reader r (failing x k) n_pos e h still v =
      absurd (subst (λ y. Position (length rows) l n v.handed y r) e v.position)
  stuck_reader r (Reader.raised x) n_pos e h still v =
      absurd (subst (λ y. Position (length rows) l n v.handed y r) e v.position)

-- A number that every move makes smaller.
abbrev reader_rank : ℕ → ℕ → Reader → ℕ
reader_rank m n counting = 4 * m + 3 * n + 4
reader_rank m n (checking c) = 4 * (m - c.start) + 3 * n + 3
reader_rank m n (awaiting c) = 4 * (m - c.start) + 3 * n
reader_rank m n (closing k) = 3 * k + 2
reader_rank m n finished = 0
reader_rank m n (failing e k) = 3 * k + 2
reader_rank m n (Reader.raised e) = 0

abbrev rank : {Row : Type 0} → ℕ → ℕ → Run Row → ℕ
rank m n r =
    reader_rank m n r.reader + 2 * length r.data_queue + sum_of (of_task (λ _. 1)) r.writers

module _ {Row : Type 0} (site : Site Row) (signal : ℕ → Bool) (rows : List Row) (l n : ℕ)
    (before : List Row) (p : Row → Bool) (faithful : IsFaithful site rows) (l_pos : 0 < l) where
  abbrev Falls : Run Row → Run Row → Type 0
  Falls r r' = rank (length rows) n r' < rank (length rows) n r

  -- The count of the source is the end of `counting`.
  count-Falls : (r : Run Row) → r.reader ≡ counting → Falls r (read_count site (limited n l) r)
  unfolding read_count
  count-Falls r e =
      let before_rank = ap (reader_rank (length rows) n) e in
      rw faithful.counts (elim (Bool-cases (ltb 0 (length rows))) [
        | inl some_rows ↦ rw some_rows (omega arith)
        | inr no_rows ↦ rw no_rows (omega arith)
      ])

  window-Falls :
      (r : Run Row) (c : Cursor) (e : ℕ)
      → r.reader ≡ checking c
      → c.end ≡ some e
      → c.start < length rows
      → Falls r (put_window site (limited n l) c r)
  unfolding put_window resume advance
  window-Falls r c e h end lt =
      let before_rank = ap (reader_rank (length rows) n) h in
      elim (Bool-cases (leb n (c.transmitted_data_count + 1))) [
        | inl full ↦ rw full (omega (arith, length-snoc {0}))
        | inr room ↦ rw (room, end) (omega (arith, length-snoc {0}))
      ]

  result-Falls :
      (r : Run Row) (c : Cursor) (results : List Bool) (e : ℕ)
      → r.reader ≡ awaiting c
      → c.end ≡ some e
      → c.start < length rows
      → OnSome (Falls r) (take_result site (limited n l) c results r)
  unfolding take_result resume advance
  result-Falls r c [] e h end lt = tt
  result-Falls r c (true ∷ rest) e h end lt =
      let before_rank = ap (reader_rank (length rows) n) h in rw end (omega arith)
  result-Falls r c (false ∷ rest) e h end lt =
      let before_rank = ap (reader_rank (length rows) n) h in omega arith

  read_step-Falls :
      (r : Run Row) (rd : Reader)
      → r.reader ≡ rd
      → Inv rows l n before p r
      → OnSome (Falls r) (read_step site (limited n l) rd r)
  unfolding read_step
  read_step-Falls r counting e v = count-Falls r e
  read_step-Falls r (checking c) e v =
      let (d, s, f, t, falses, some_rows) =
        subst (λ y. Position (length rows) l n v.handed y r) e v.position in
      elim (Bool-cases (past_end c.end (some l) c.data_count)) [
        | inl past ↦ rw past (omega (arith, ap (reader_rank (length rows) n) e))
        | inr more ↦ rw more (window-Falls r c (v.handed + l) e f (unfold past_end in ground arith))
      ]
  read_step-Falls r (awaiting c) e v =
      let (d, s, f, t, falses, lt, full) =
        subst (λ y. Position (length rows) l n v.handed y r) e v.position in
      result-Falls r c r.data_result_queue v.handed e f lt
  read_step-Falls r (closing zero) e v = omega (arith, ap (reader_rank (length rows) n) e)
  read_step-Falls r (closing (suc k)) e v =
      omega (arith, ap (reader_rank (length rows) n) e, length-snoc r.data_queue finish_task)
  read_step-Falls r finished e v = tt
  read_step-Falls r (failing x k) e v =
      absurd (subst (λ y. Position (length rows) l n v.handed y r) e v.position)
  read_step-Falls r (Reader.raised x) e v = tt

  -- A writer that lets go of its task.
  drop-Falls :
      (r r' : Run Row) (i total : ℕ) (t : DataQueueTask Row) (w : Writer Row)
      → get_elem? r.writers i ≡ some (working total t)
      → of_task (λ _. 1) w ≡ 0
      → r'.writers ≡ set r.writers i w
      → r'.data_queue ≡ r.data_queue
      → r'.reader ≡ r.reader
      → Falls r r'
  drop-Falls r r' i total t w g z ew eq er =
      rw (ew, eq, er) (omega (arith, sum_of-set (of_task (λ _. 1)) r.writers i w g))

  finish-Falls :
      (r : Run Row) (i total : ℕ) (t : DataQueueTask Row) (x : Option Error)
      → get_elem? r.writers i ≡ some (working total t)
      → Falls r (finish site signal i total t x r)
  unfolding finish fail
  finish-Falls r i total t none g =
      drop-Falls r (finish site signal i total t none r) i total t (returned total) g refl refl refl
        refl
  finish-Falls r i total t (some e) g =
      drop-Falls r (finish site signal i total t (some e) r) i total t
        (Writer.raised (raise_from (source_error site t e))) g refl refl refl refl

  report-Falls :
      (r r' : Run Row) (i total : ℕ) (t : DataQueueTask Row) (x : Result Error ℕ)
      → get_elem? r.writers i ≡ some (working total t)
      → r'.writers ≡ r.writers
      → r'.data_queue ≡ r.data_queue
      → r'.reader ≡ r.reader
      → Falls r (report site signal i total t x r')
  unfolding report fail
  report-Falls r r' i total t (ok k) g ew eq er =
      drop-Falls r (report site signal i total t (ok k) r') i total t (waiting (total + k)) g refl
        (rw ew) eq er
  report-Falls r r' i total t (err e) g ew eq er =
      drop-Falls r (report site signal i total t (err e) r') i total t
        (Writer.raised (raise_from e)) g refl (rw ew) eq er

  get-Falls :
      (r : Run Row) (i total : ℕ) (q : List (DataQueueTask Row))
      → get_elem? r.writers i ≡ some (waiting total)
      → r.data_queue ≡ q
      → OnSome (Falls r) (get_task site signal i total q r)
  unfolding get_task
  get-Falls r i total [] g e = tt
  get-Falls r i total (t ∷ rest) g e =
      omega (arith, sum_of-set (of_task (λ _. 1)) r.writers i (working total t) g, ap length e)

  write_step-Falls :
      (r : Run Row) (i : ℕ) (w : Option (Writer Row))
      → get_elem? r.writers i ≡ w
      → OnSome (Falls r) (write_step site signal i w r)
  unfolding write_step handle
  write_step-Falls r i none g = tt
  write_step-Falls r i (some (waiting k)) g = get-Falls r i k r.data_queue g refl
  write_step-Falls r i (some (working k t)) g =
      if_ind (Falls r) t.is_finished _ _ (λ done. finish-Falls r i k t t.exception g)
        (λ more. report-Falls r _ i k t (process site i t t.payload r.table).0.0 g refl refl refl)
  write_step-Falls r i (some (returned k)) g = tt
  write_step-Falls r i (some (Writer.raised e)) g = tt

module _ {Row : Type 0} (site : Site Row) (signal : ℕ → Bool) (rows : List Row) (l n : ℕ)
    (before : List Row) (faithful : IsFaithful site rows) (l_pos : 0 < l)
    (told : (k : ℕ) → 0 < k → signal k ≡ true) where
  -- Over a source that pages faithfully and with a positive limit, where a writer reports True
  -- after every task with rows, and for at least one process, the threads never block one another
  -- for ever: in a state that an interleaving reaches and in which no thread can move, the reader
  -- has finished and each of the writers has returned or raised.
  pub no_deadlock :
      (ts : List Thread)
      → 0 < n
      → ((t : Thread) → step site signal (limited n l) t (reached site signal n l before ts) ≡ none)
      → ((reached site signal n l before ts).reader ≡ finished)
        × (sum_of returned_of (reached site signal n l before ts).writers
              + sum_of failed_of (reached site signal n l before ts).writers
            ≡ n)
  unfolding step
  no_deadlock ts n_pos still =
      let r = reached site signal n l before ts in
      stuck_reader site signal rows l n before (λ _. true) r r.reader n_pos refl (still source)
        (λ i. still (target i))
        (schedule-Reachable site signal rows l n before faithful l_pos told (λ _. true) ts).inv

  step-Falls :
      (r : Run Row) (t : Thread)
      → Reachable site signal rows l n before faithful l_pos told (λ _. true) r
      → OnSome
          (Falls site signal rows l n before (λ _. true) faithful l_pos r)
          (step site signal (limited n l) t r)
  unfolding step
  step-Falls r source h =
      read_step-Falls site signal rows l n before (λ _. true) faithful l_pos r r.reader refl h.inv
  step-Falls r (target i) h =
      write_step-Falls site signal rows l n before (λ _. true) faithful l_pos r i
        (get_elem? r.writers i) refl

  moves-le_rank :
      (ts : List Thread) (r : Run Row)
      → Reachable site signal rows l n before faithful l_pos told (λ _. true) r
      → moves site signal (limited n l) ts r ≤ rank (length rows) n r
  unfolding moves or_stay
  moves-le_rank [] r h = omega arith
  moves-le_rank (t ∷ ts) r h =
      go (step site signal (limited n l) t r) (step-Falls r t h)
        (step-Reachable site signal rows l n before faithful l_pos told (λ _. true) t r h)
        (moves-le_rank ts)
    where
      go :
          (o : Option (Run Row))
          → OnSome (Falls site signal rows l n before (λ _. true) faithful l_pos r) o
          → Reachable site signal rows l n before faithful l_pos told
              (λ _. true)
              (or_stay site signal (limited n l) o r)
          → ((r' : Run Row)
              → Reachable site signal rows l n before faithful l_pos told (λ _. true) r'
              → moves site signal (limited n l) ts r' ≤ rank (length rows) n r')
          → (elim o [
            | none ↦ moves site signal (limited n l) ts r
            | some r' ↦ suc (moves site signal (limited n l) ts r')
          ])
            ≤ rank (length rows) n r
      go none f k ih = ih r h
      go (some r') f k ih = omega (arith, ih r' k)

  -- Over a source that pages faithfully and with a positive limit, where a writer reports True
  -- after every task with rows, no schedule makes more than 4 · rows + 3 · processes + 4 moves.
  pub moves-le :
      (ts : List Thread)
      → moves site signal (limited n l) ts (initial site signal (limited n l) before)
        ≤ 4 * length rows + 3 * n + 4
  moves-le ts =
      let start = initial site signal (limited n l) before in
      let bound =
        moves-le_rank ts start
          (initial-Reachable site signal rows l n before faithful l_pos told (λ _. true)) in
      unfold initial in
      omega (arith, bound, sum_of-replicate {A = Writer Row} (of_task (λ _. 1)) n (waiting 0) refl)
