-- ===== src/Parallel/Outcome.antt =====
-- What every interleaving of the parallel strategy comes to.
use pdip.Prelude.{
  ℕ, ◌+◌, ◌<◌, ◌≤◌, ◌≡◌, refl, ap, subst, Bool, true, Option, none, some, List, [], ◌∷◌, arith,
  length, get_elem?, replicate, take, take-all, count, count-true, sum_of, sum_of-replicate,
  length-replicate,
}
use pdip.Parallel.Domain.{DataQueueTask, Site}
use pdip.Parallel.State.{finished, Writer, waiting, working, returned, Run}
use pdip.Parallel.Reader.{read_step}
use pdip.Parallel.Writer.{write_step}
use pdip.Parallel.Schedule.{Thread, source, target, initial, step, or_stay, run, limited, reached}
use pdip.Parallel.Invariant.{
  IsFaithful, Position, fins_left, bad_task, fin_writer, total_of, returned_of, failed_of,
  task_weight, of_task, Inv,
}
use pdip.Parallel.Invariant.ReaderSteps.{OnSome, read_step-Good}
use pdip.Parallel.Invariant.WriterSteps.{write_step-Good}
use pdip.Parallel.Invariant.QueueOrder.{
  IsOrdered, open_task, read_step-IsOrdered, write_step-IsOrdered,
}

-- The reader has finished and every writer has returned a total.
abbrev pub HasEnded : {Row : Type 0} → Run Row → Type 0
HasEnded r = (r.reader ≡ finished) × (sum_of returned_of r.writers ≡ length r.writers)

module _ {Row : Type 0} where
  pub returned-le-length : (ws : List (Writer Row)) → sum_of returned_of ws ≤ length ws
  returned-le-length [] = omega arith
  returned-le-length (w ∷ ws) = ground (arith, returned-le-length ws)

  -- Where every writer has returned, none has raised or holds a task.
  all_returned :
      (f : DataQueueTask Row → ℕ) (ws : List (Writer Row))
      → sum_of returned_of ws ≡ length ws
      → (sum_of failed_of ws ≡ 0) × (sum_of (of_task f) ws ≡ 0) × (sum_of fin_writer ws ≡ length ws)
  all_returned f [] h = (refl, refl, refl)
  all_returned f (returned k ∷ ws) h = ground (arith, all_returned f ws)
  all_returned f (waiting k ∷ ws) h = absurd (omega (arith, returned-le-length ws))
  all_returned f (working k t ∷ ws) h = absurd (omega (arith, returned-le-length ws))
  all_returned f (Writer.raised e ∷ ws) h = absurd (omega (arith, returned-le-length ws))

  no_open_tasks :
      (p : Row → Bool) (rows : List Row) (q : List (DataQueueTask Row))
      → sum_of open_task q ≡ 0
      → sum_of (task_weight p rows) q ≡ 0
  no_open_tasks p rows [] h = refl
  no_open_tasks p rows (t ∷ q) h = ground (arith, no_open_tasks p rows q)

module _ {Row : Type 0} (site : Site Row) (signal : ℕ → Bool) (rows : List Row) (l n : ℕ)
    (before : List Row) (faithful : IsFaithful site rows) (l_pos : 0 < l)
    (told : (k : ℕ) → 0 < k → signal k ≡ true) where
  pub record Reachable (p : Row → Bool) (r : Run Row) : Type 0 where
    pub inv : Inv rows l n before p r
    pub ordered : IsOrdered r

  none_of : (f : Writer Row → ℕ) → f (waiting 0) ≡ 0 → sum_of f (replicate n (waiting 0)) ≡ 0
  none_of f e = sum_of-replicate f n (waiting 0) e

  pub initial-Reachable : (p : Row → Bool) → Reachable p (initial site signal (limited n l) before)
  unfolding initial
  initial-Reachable p = record {
    inv = record {
      handed = 0;
      position = (refl, omega (arith, none_of (of_task (λ _. 1)) refl), none_of failed_of refl);
      balance = λ _. (
        omega (arith, none_of (of_task (task_weight p rows)) refl),
        omega (arith, none_of total_of refl),
      );
      sane = omega (arith, none_of (of_task (bad_task (length rows) l)) refl);
      fins = omega (arith, none_of fin_writer refl);
      size = length-replicate n (waiting 0);
      falses = omega arith;
    };
    ordered = record { order = refl; drained = λ h. refl };
  }

  stay-Reachable :
      (p : Row → Bool) (o : Option (Run Row)) (r : Run Row)
      → OnSome (Inv rows l n before p) o
      → OnSome IsOrdered o
      → Reachable p r
      → Reachable p (or_stay site signal (limited n l) o r)
  unfolding or_stay
  stay-Reachable p none r i o h = h
  stay-Reachable p (some r') r i o h = record { inv = i; ordered = o }

  pub step-Reachable :
      (p : Row → Bool) (t : Thread) (r : Run Row)
      → Reachable p r
      → Reachable p (or_stay site signal (limited n l) (step site signal (limited n l) t r) r)
  unfolding step or_stay
  step-Reachable p source r h =
      stay-Reachable p (read_step site (limited n l) r.reader r) r
        (read_step-Good site rows l n before p faithful l_pos r r.reader refl h.inv)
        (read_step-IsOrdered site signal rows l n before p r r.reader refl h.inv h.ordered) h
  step-Reachable p (target i) r h =
      let w = get_elem? r.writers i in
      stay-Reachable p (write_step site signal i w r) r
        (write_step-Good site signal rows l n before p i faithful l_pos told r w refl h.inv)
        (write_step-IsOrdered site signal rows l n before p i r w refl h.ordered) h

  run-Reachable :
      (p : Row → Bool) (ts : List Thread) (r : Run Row)
      → Reachable p r
      → Reachable p (run site signal (limited n l) ts r)
  unfolding run
  run-Reachable p [] r h = h
  run-Reachable p (t ∷ ts) r h = run-Reachable p ts _ (step-Reachable p t r h)

  pub schedule-Reachable :
      (p : Row → Bool) (ts : List Thread) → Reachable p (reached site signal n l before ts)
  schedule-Reachable p ts = run-Reachable p ts _ (initial-Reachable p)

  ended_counts :
      (p : Row → Bool) (r : Run Row)
      → 0 < n
      → Reachable p r
      → HasEnded r
      → (count p r.table ≡ count p before + count p rows)
        × (sum_of total_of r.writers + length before ≡ length r.table)
  ended_counts p r n_pos h (e, all) =
      let v = h.inv in
      let (none_failed, no_tasks, fins) = all_returned (task_weight p rows) r.writers all in
      let place = subst (λ x. Position (length rows) l n v.handed x r) e v.position in
      let left = ap (fins_left n) e in
      let opens : sum_of open_task r.data_queue ≡ 0 =
        h.ordered.drained (omega (arith, fins, v.size)) in
      let queued = no_open_tasks p rows r.data_queue opens in
      let whole : take v.handed rows ≡ rows = take-all v.handed rows (ground arith) in
      let (balance, totals) = v.balance none_failed in
      (omega (arith, balance, ap (count p) whole), totals)

  -- Over a source that pages faithfully and with a positive limit, where a writer reports True
  -- after every task with rows, and for at least one process: whatever the interleaving, a run in
  -- which the reader finishes and every writer returns has copied each row of the source exactly
  -- once. For each test of rows, the target table holds as many more rows that pass it as the
  -- source has, and the totals of the writers add up to the number of rows.
  pub copies_all :
      (p : Row → Bool) (ts : List Thread)
      → 0 < n
      → HasEnded (reached site signal n l before ts)
      → (count p (reached site signal n l before ts).table ≡ count p before + count p rows)
        × (sum_of total_of (reached site signal n l before ts).writers ≡ length rows)
  copies_all p ts n_pos ended =
      let r = reached site signal n l before ts in
      let every = ended_counts (λ _. true) r n_pos (schedule-Reachable (λ _. true) ts) ended in
      (
        (ended_counts p r n_pos (schedule-Reachable p ts) ended).0,
        omega (arith, every.0, every.1, count-true r.table, count-true before, count-true rows),
      )
