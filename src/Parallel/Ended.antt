-- ===== src/Parallel/Ended.antt =====
-- The results of the writers in the order in which they end, which the thread pool collects. What
-- is said here holds of every run, whatever the adapters do.
use pdip.Prelude.{
  ℕ, zero, suc, ◌+◌, ◌≡◌, refl, ap, Bool, true, false, Option, none, some, List, [], ◌∷◌, ◌++◌,
  arith, length, get_elem?, set, replicate, count, sum_of, sum_of-set, sum_of-snoc, count-snoc,
  length-snoc, sum_of-replicate, ◌==◌, if◌then◌else◌, if_ind, Bool-cases, inl, inr,
}
use pdip.Prelude.Results.{Result, ok, err}
use pdip.Parallel.Domain.{Error, DataQueueTask, Site, Config}
use pdip.Parallel.State.{
  Cursor, Reader, counting, checking, awaiting, closing, finished, failing, Writer, waiting,
  working, returned, Run,
}
use pdip.Parallel.Reader.{take_result, read_step, past_end}
use pdip.Parallel.Writer.{raise_from, process, fail, finish, report, handle, get_task, write_step}
use pdip.Parallel.Schedule.{Thread, source, target, initial, step, or_stay, run}
use pdip.Parallel.Invariant.{returned_of, failed_of}
use pdip.Parallel.Invariant.ReaderSteps.{OnSome}

abbrev pub value_of : Result Error ℕ → ℕ
value_of (ok n) = n
value_of (err e) = 0

abbrev pub error_of : Result Error ℕ → ℕ
error_of (ok n) = 0
error_of (err e) = 1

module _ {Row : Type 0} where
  abbrev pub returned_total : Writer Row → ℕ
  returned_total (returned total) = total
  returned_total (waiting total) = 0
  returned_total (working total t) = 0
  returned_total (Writer.raised e) = 0

  abbrev pub ended_of : Writer Row → ℕ
  ended_of w = returned_of w + failed_of w

  -- 1 where the writer `k` has ended.
  abbrev pub ended_at : ℕ → List (Writer Row) → ℕ
  ended_at k [] = 0
  ended_at zero (w ∷ ws) = ended_of w
  ended_at (suc k) (w ∷ ws) = ended_at k ws

  -- The writer `k` is in the list just where it has ended, with what it returned or raised.
  pub record Matches (writers : List (Writer Row)) (ended : List (ℕ × Result Error ℕ))
      : Type 0 where
    pub values : sum_of (λ e. value_of e.1) ended ≡ sum_of returned_total writers
    pub errors : sum_of (λ e. error_of e.1) ended ≡ sum_of failed_of writers
    pub size : length ended ≡ sum_of ended_of writers
    pub each : (k : ℕ) → count (λ e. e.0 == k) ended ≡ ended_at k writers

  ended_at-set :
      (k i : ℕ) (ws : List (Writer Row)) (v w : Writer Row)
      → get_elem? ws i ≡ some w
      → (ended_at k (set ws i v) ≡ (if i == k then ended_of v else ended_at k ws))
        × (ended_at i ws ≡ ended_of w)
  ended_at-set k i [] v w h = cc
  ended_at-set zero zero (x ∷ ws) v w h = (refl, ap ended_of (cc))
  ended_at-set zero (suc i) (x ∷ ws) v w h = (ground arith, (ended_at-set zero i ws v w h).1)
  ended_at-set (suc k) zero (x ∷ ws) v w h = (ground arith, ap ended_of (cc))
  ended_at-set (suc k) (suc i) (x ∷ ws) v w h =
      let (at, was) = ended_at-set k i ws v w h in (ground (arith, at), was)

  -- A writer that has not ended goes on.
  go_on-Matches :
      (i : ℕ) (ws : List (Writer Row)) (es : List (ℕ × Result Error ℕ)) (w v : Writer Row)
      → get_elem? ws i ≡ some w
      → ended_of w ≡ 0
      → returned_total w ≡ 0
      → ended_of v ≡ 0
      → returned_total v ≡ 0
      → Matches ws es
      → Matches (set ws i v) es
  go_on-Matches i ws es w v g o t o' t' m = record {
    values = omega (arith, sum_of-set returned_total ws i v g, m.values);
    errors = omega (arith, sum_of-set failed_of ws i v g, m.errors);
    size = omega (arith, sum_of-set ended_of ws i v g, m.size);
    each = λ k. let (at, was) = ended_at-set k i ws v w g in ground (arith, at, was, m.each k);
  }

  end-Matches :
      (i : ℕ) (ws : List (Writer Row)) (es : List (ℕ × Result Error ℕ)) (w v : Writer Row)
      (x : Result Error ℕ)
      → get_elem? ws i ≡ some w
      → ended_of w ≡ 0
      → returned_total w ≡ 0
      → ended_of v ≡ 1
      → returned_total v ≡ value_of x
      → failed_of v ≡ error_of x
      → Matches ws es
      → Matches (set ws i v) (es ++ (i, x) ∷ [])
  end-Matches i ws es w v x g o t o' t' f m = record {
    values = omega (
      arith,
      sum_of-set returned_total ws i v g,
      m.values,
      sum_of-snoc (λ e. value_of e.1) es (i, x),
    );
    errors =
        omega (
          arith,
          sum_of-set failed_of ws i v g,
          m.errors,
          sum_of-snoc (λ e. error_of e.1) es (i, x),
        );
    size = omega (arith, sum_of-set ended_of ws i v g, m.size, length-snoc es (i, x));
    each = λ k.
        let (at, was) = ended_at-set k i ws v w g in
        ground
          (arith, at, was, m.each k, count-snoc (λ (e : ℕ × Result Error ℕ). e.0 == k) es (i, x));
  }

module _ {Row : Type 0} (site : Site Row) where
  abbrev Kept : Run Row → Run Row → Type 0
  Kept r r' = (r'.writers ≡ r.writers) × (r'.ended ≡ r.ended)

  take_result-Kept :
      (config : Config) (c : Cursor) (results : List Bool) (r : Run Row)
      → OnSome (Kept r) (take_result site config c results r)
  unfolding take_result
  take_result-Kept config c [] r = tt
  take_result-Kept config c (true ∷ rest) r = (refl, refl)
  take_result-Kept config c (false ∷ rest) r = (refl, refl)

  read_step-Kept :
      (config : Config) (rd : Reader) (r : Run Row) → OnSome (Kept r) (read_step site config rd r)
  unfolding read_step
  read_step-Kept config counting r = (refl, refl)
  read_step-Kept config (checking c) r =
      elim (Bool-cases (past_end c.end config.limit c.data_count)) [
        | inl past ↦ rw past (refl, refl)
        | inr more ↦ rw more (refl, refl)
      ]
  read_step-Kept config (awaiting c) r = take_result-Kept config c r.data_result_queue r
  read_step-Kept config (closing zero) r = (refl, refl)
  read_step-Kept config (closing (suc k)) r = (refl, refl)
  read_step-Kept config finished r = tt
  read_step-Kept config (failing x zero) r = (refl, refl)
  read_step-Kept config (failing x (suc k)) r = (refl, refl)
  read_step-Kept config (Reader.raised x) r = tt

  abbrev EndedMatches : Run Row → Type 0
  EndedMatches r = Matches r.writers r.ended

  module _ (signal : ℕ → Bool) (i : ℕ) where
    report-EndedMatches :
        (r r' : Run Row) (total : ℕ) (t : DataQueueTask Row) (x : Result Error ℕ)
        → get_elem? r.writers i ≡ some (working total t)
        → EndedMatches r
        → r'.writers ≡ r.writers
        → r'.ended ≡ r.ended
        → EndedMatches (report site signal i total t x r')
    unfolding report fail
    report-EndedMatches r r' total t (ok n) g m w e =
        rw (w, e)
          (go_on-Matches i r.writers r.ended (working total t) (waiting (total + n)) g refl refl
            refl refl m)
    report-EndedMatches r r' total t (err x) g m w e =
        rw (w, e)
          (end-Matches i r.writers r.ended (working total t) (Writer.raised (raise_from x))
            (err (raise_from x)) g refl refl refl refl refl m)

    finish-EndedMatches :
        (r : Run Row) (total : ℕ) (t : DataQueueTask Row) (x : Option Error)
        → get_elem? r.writers i ≡ some (working total t)
        → EndedMatches r
        → EndedMatches (finish site signal i total t x r)
    unfolding finish fail
    finish-EndedMatches r total t none g m =
        end-Matches i r.writers r.ended (working total t) (returned total) (ok total) g refl refl
          refl refl refl m
    finish-EndedMatches r total t (some x) g m =
        end-Matches i r.writers r.ended (working total t) _ (err _) g refl refl refl refl refl m

    handle-EndedMatches :
        (r : Run Row) (total : ℕ) (t : DataQueueTask Row)
        → get_elem? r.writers i ≡ some (working total t)
        → EndedMatches r
        → EndedMatches (handle site signal i total t r)
    unfolding handle
    handle-EndedMatches r total t g m =
        if_ind EndedMatches t.is_finished _ _ (λ _. finish-EndedMatches r total t t.exception g m)
          (λ _.
            report-EndedMatches r _ total t (process site i t t.payload r.table).0.0 g m refl refl)

    get_task-EndedMatches :
        (r : Run Row) (total : ℕ) (queue : List (DataQueueTask Row))
        → get_elem? r.writers i ≡ some (waiting total)
        → EndedMatches r
        → OnSome EndedMatches (get_task site signal i total queue r)
    unfolding get_task
    get_task-EndedMatches r total [] g m = tt
    get_task-EndedMatches r total (t ∷ rest) g m =
        go_on-Matches i r.writers r.ended (waiting total) (working total t) g refl refl refl refl m

    write_step-EndedMatches :
        (r : Run Row) (w : Option (Writer Row))
        → get_elem? r.writers i ≡ w
        → EndedMatches r
        → OnSome EndedMatches (write_step site signal i w r)
    unfolding write_step
    write_step-EndedMatches r none g m = tt
    write_step-EndedMatches r (some (waiting total)) g m =
        get_task-EndedMatches r total r.data_queue g m
    write_step-EndedMatches r (some (working total t)) g m = handle-EndedMatches r total t g m
    write_step-EndedMatches r (some (returned total)) g m = tt
    write_step-EndedMatches r (some (Writer.raised e)) g m = tt

  module _ (signal : ℕ → Bool) (config : Config) where
    kept :
        (o : Option (Run Row)) (r : Run Row)
        → OnSome (Kept r) o
        → EndedMatches r
        → EndedMatches (or_stay site signal config o r)
    unfolding or_stay
    kept none r h m = m
    kept (some r') r (w, e) m = rw (w, e) m

    matched :
        (o : Option (Run Row)) (r : Run Row)
        → OnSome EndedMatches o
        → EndedMatches r
        → EndedMatches (or_stay site signal config o r)
    unfolding or_stay
    matched none r h m = m
    matched (some r') r h m = h

    step-EndedMatches :
        (t : Thread) (r : Run Row)
        → EndedMatches r
        → EndedMatches (or_stay site signal config (step site signal config t r) r)
    unfolding step
    step-EndedMatches source r m =
        kept (read_step site config r.reader r) r (read_step-Kept config r.reader r) m
    step-EndedMatches (target i) r m =
        let w = get_elem? r.writers i in
        matched (write_step site signal i w r) r (write_step-EndedMatches signal i r w refl m) m

    run-EndedMatches :
        (ts : List Thread) (r : Run Row)
        → EndedMatches r
        → EndedMatches (run site signal config ts r)
    unfolding run
    run-EndedMatches [] r m = m
    run-EndedMatches (t ∷ ts) r m = run-EndedMatches ts _ (step-EndedMatches t r m)

    ended_at-replicate :
        (k n : ℕ) (w : Writer Row) → ended_of w ≡ 0 → ended_at k (replicate n w) ≡ 0
    ended_at-replicate k zero w h = refl
    ended_at-replicate zero (suc n) w h = h
    ended_at-replicate (suc k) (suc n) w h = ended_at-replicate k n w h

    -- In every state that an interleaving reaches, whatever the adapters do, the results that are on
    -- their way to the collector are those of the writers that have ended: each such writer has put
    -- one, no other writer has, and they hold what the writers returned.
    pub initial-run-Matches :
        (ts : List Thread) (table : List Row)
        → Matches
            (run site signal config ts (initial site signal config table)).writers
            (run site signal config ts (initial site signal config table)).ended
    unfolding initial
    initial-run-Matches ts table =
        let n = config.process_count in
        let start : Writer Row = waiting 0 in
        run-EndedMatches ts (initial site signal config table) (record {
          values = omega (arith, sum_of-replicate returned_total n start refl);
          errors = omega (arith, sum_of-replicate failed_of n start refl);
          size = omega (arith, sum_of-replicate ended_of n start refl);
          each = λ k. omega (arith, ended_at-replicate k n start refl);
        })
