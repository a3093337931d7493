-- ===== src/Parallel/Invariant/WriterSteps.antt =====
-- The steps of the writers keep the invariant.
use pdip.Prelude.{
  ℕ, ◌+◌, ◌-◌, ◌<◌, ◌≤◌, ◌≡◌, ◌≢◌, refl, ap, ◌∙◌, sym, subst, Bool, true, false, not, Option, none,
  some, List, [], ◌∷◌, ◌++◌, arith, length, get_elem?, set, take, drop, count, sum_of, sum_of-set,
  le-sum_of, length-set, count-snoc, length-snoc, count-append, length-append, length-take-drop_pos,
  if_ind,
}
use pdip.Prelude.Results.{Result, ok, err}
use pdip.Parallel.Domain.{Error, DataQueueTask, Log, got_task_without_data, Site}
use pdip.Parallel.State.{
  Reader, counting, checking, awaiting, closing, finished, failing, Writer, waiting, working,
  returned, Run,
}
use pdip.Parallel.Writer.{
  raise_from, write, write_page, execute_with_paging, process, fail, finish, report, handle,
  get_task, write_step,
}
use pdip.Parallel.Invariant.{
  IsFaithful, fins_left, bad_window, bad_task, fin_task, fin_writer, total_of, failed_of,
  task_weight, of_task, on_the_way, failed, Position, Inv,
}
use pdip.Parallel.Invariant.ReaderSteps.{OnSome}

module _ {Row : Type 0} (n l process_count handed : ℕ) where
  -- A move that keeps the number of tasks on the way, and reports what fails.
  move-Position :
      (rd : Reader) (r r' : Run Row)
      → on_the_way r' ≡ on_the_way r
      → failed r ≤ failed r'
      → failed r' + count not r.data_result_queue ≤ failed r + count not r'.data_result_queue
      → (on_the_way r ≡ 0 → failed r' ≡ failed r)
      → Position n l process_count handed rd r
      → Position n l process_count handed rd r'
  move-Position counting r r' o m g quiet h = ground (arith, quiet h.1)
  move-Position (checking c) r r' o m g quiet h = ground arith
  move-Position (awaiting c) r r' o m g quiet h = ground arith
  move-Position (closing k) r r' o m g quiet h = ground arith
  move-Position finished r r' o m g quiet h = ground arith
  move-Position (failing e k) r r' o m g quiet h = h
  move-Position (Reader.raised e) r r' o m g quiet h = h

  -- A move after the loop.
  end-Position :
      (rd : Reader) (r r' : Run Row)
      → fins_left process_count rd ≢ process_count
      → failed r ≤ failed r'
      → Position n l process_count handed rd r
      → Position n l process_count handed rd r'
  end-Position counting r r' out m h = absurd (out refl)
  end-Position (checking c) r r' out m h = absurd (out refl)
  end-Position (awaiting c) r r' out m h = absurd (out refl)
  end-Position (closing k) r r' out m h = ground arith
  end-Position finished r r' out m h = ground arith
  end-Position (failing e k) r r' out m h = h
  end-Position (Reader.raised e) r r' out m h = h

module _ {Row : Type 0} (site : Site Row) (signal : ℕ → Bool) (source : List Row) (l n : ℕ)
    (before : List Row) (p : Row → Bool) (i : ℕ) where
  abbrev pub Good : Run Row → Type 0
  Good = Inv source l n before p

  get-Good :
      (r : Run Row) (total : ℕ) (queue : List (DataQueueTask Row))
      → get_elem? r.writers i ≡ some (waiting total)
      → r.data_queue ≡ queue
      → Good r
      → OnSome Good (get_task site signal i total queue r)
  unfolding get_task
  get-Good r total [] g q v = tt
  get-Good r total (t ∷ rest) g q v =
      let swap = λ (f : Writer Row → ℕ). sum_of-set f r.writers i (working total t) g in
      let taken = λ (f : DataQueueTask Row → ℕ). ap (sum_of f) q in
      let r' = record r { writers = set r.writers i (working total t); data_queue = rest } in
      record {
        handed = v.handed;
        position =
            move-Position (length source) l n v.handed r.reader r r'
              (omega (arith, swap (of_task (λ _. 1)), ap length q)) (omega (arith, swap failed_of))
              (omega (arith, swap failed_of)) (λ _. omega (arith, swap failed_of)) v.position;
        balance = λ none_failed. ground (
          arith,
          v.balance,
          swap failed_of,
          swap total_of,
          swap (of_task (task_weight p source)),
          taken (task_weight p source),
        );
        sane = omega (
          arith,
          v.sane,
          swap (of_task (bad_task (length source) l)),
          taken (bad_task (length source) l),
        );
        fins = omega (arith, v.fins, swap fin_writer, taken fin_task);
        size = length-set r.writers i _ ∙ v.size;
        falses = omega (arith, v.falses, swap failed_of);
      }

  -- What a failing writer does, whatever the call left in the table.
  fail-Good :
      (r : Run Row) (total : ℕ) (t : DataQueueTask Row) (e : Error) (table : List Row)
      (channel : List Log)
      → get_elem? r.writers i ≡ some (working total t)
      → fin_task t ≡ 0
      → Good r
      → Good (fail site signal i t e (record r { table = table; channel = channel }))
  unfolding fail
  fail-Good r total t e table channel g open_task v =
      let swap =
        λ (f : Writer Row → ℕ). sum_of-set f r.writers i (Writer.raised (raise_from e)) g in
      let busy = le-sum_of (of_task (λ _. 1)) r.writers i g in
      let falses' = count-snoc not r.data_result_queue false in
      record {
        handed = v.handed;
        position =
            move-Position (length source) l n v.handed r.reader r
              (fail site signal i t e (record r { table = table; channel = channel }))
              (omega (arith, swap (of_task (λ _. 1)), length-snoc r.data_result_queue false))
              (omega (arith, swap failed_of)) (omega (arith, swap failed_of, falses'))
              (λ idle. absurd (omega (arith, idle, busy))) v.position;
        balance = λ none_failed. absurd (omega (arith, swap failed_of));
        sane = omega (arith, v.sane, swap (of_task (bad_task (length source) l)));
        fins = omega (arith, v.fins, swap fin_writer, open_task);
        size = length-set r.writers i _ ∙ v.size;
        falses = omega (arith, v.falses, swap failed_of, falses');
      }

  -- A task that succeeds: its rows are in the table, and the writer has counted them.
  ok-Good :
      (r : Run Row) (total : ℕ) (t : DataQueueTask Row) (rows table : List Row) (channel : List Log)
      → get_elem? r.writers i ≡ some (working total t)
      → fin_task t ≡ 0
      → signal (length rows) ≡ true
      → table ≡ r.table ++ rows
      → task_weight p source t ≡ count p rows
      → Good r
      → Good (
          report site signal i total t
            (ok (length rows))
            (record r { table = table; channel = channel }))
  unfolding report
  ok-Good r total t rows table channel g open_task told e w v =
      let swap =
        λ (f : Writer Row → ℕ). sum_of-set f r.writers i (waiting (total + length rows)) g in
      let falses' = count-snoc not r.data_result_queue (signal (length rows)) in
      record {
        handed = v.handed;
        position =
            move-Position (length source) l n v.handed r.reader r
              (report site signal i total t (ok (length rows))
                (record r { table = table; channel = channel }))
              (omega (
                arith,
                swap (of_task (λ _. 1)),
                length-snoc r.data_result_queue (signal (length rows)),
              ))
              (omega (arith, swap failed_of)) (ground (arith, swap failed_of, falses'))
              (λ _. omega (arith, swap failed_of)) v.position;
        balance = λ none_failed. ground (
          arith,
          v.balance,
          w,
          swap failed_of,
          swap total_of,
          swap (of_task (task_weight p source)),
          ap (count p) e,
          ap length e,
          count-append p r.table rows,
          length-append r.table rows,
        );
        sane = omega (arith, v.sane, swap (of_task (bad_task (length source) l)));
        fins = omega (arith, v.fins, swap fin_writer, open_task);
        size = length-set r.writers i _ ∙ v.size;
        falses = ground (arith, v.falses, swap failed_of, falses');
      }

  -- A finish task ends the writer.
  finish-Good :
      (r : Run Row) (total : ℕ) (t : DataQueueTask Row)
      → get_elem? r.writers i ≡ some (working total t)
      → t.is_finished ≡ true
      → Good r
      → Good (finish site signal i total t t.exception r)
  unfolding finish
  finish-Good r total t g done v =
      let clean : t.exception ≡ none =
        ground (arith, v.sane, le-sum_of (of_task (bad_task (length source) l)) r.writers i g) in
      let swap = λ (f : Writer Row → ℕ). sum_of-set f r.writers i (returned total) g in
      let fin = le-sum_of fin_writer r.writers i g in
      rw clean (record {
        handed = v.handed;
        position =
            end-Position (length source) l n v.handed r.reader r
              (finish site signal i total t none r) (λ e. ground (arith, v.fins))
              (omega (arith, swap failed_of)) v.position;
        balance = λ none_failed. ground (
          arith,
          v.balance,
          swap failed_of,
          swap total_of,
          swap (of_task (task_weight p source)),
        );
        sane = omega (arith, v.sane, swap (of_task (bad_task (length source) l)));
        fins = ground (arith, v.fins, swap fin_writer);
        size = length-set r.writers i _ ∙ v.size;
        falses = omega (arith, v.falses, swap failed_of);
      })

  module _ (faithful : IsFaithful site source) (l_pos : 0 < l)
      (told : (k : ℕ) → 0 < k → signal k ≡ true) where
    -- A window task pages the source and writes what it got.
    window-Good :
        (r : Run Row) (total : ℕ) (t : DataQueueTask Row) (s : ℕ) (channel : List Log)
        → get_elem? r.writers i ≡ some (working total t)
        → t.is_finished ≡ false
        → t.start ≡ some s
        → t.end ≡ some (s + l)
        → s < length source
        → Good r
        → (page : Result Error (List Row)) → site.get_source_data_with_paging s (s + l) ≡ page
        → Good (
            report site signal i total t
              (write_page site page r.table).0
              (record r { table = (write_page site page r.table).1; channel = channel }))
    unfolding report write_page write
    window-Good r total t s channel g open_task start end lt v (err e) read =
        fail-Good r total t e r.table channel g (rw open_task) v
    window-Good r total t s channel g open_task start end lt v (ok rows) read =
        written (site.write_data rows r.table).0 (site.write_data rows r.table).1 refl
      where
        width : (s + l) - s ≡ l
        width = omega arith

        here : rows ≡ take l (drop s source)
        here = rw width at (faithful.pages s (s + l) rows read)

        some_rows : 0 < length rows
        some_rows = rw here (length-take-drop_pos s l source lt l_pos)

        written :
            (answer : Result Error ℕ) (table : List Row)
            → site.write_data rows r.table ≡ (answer, table)
            → Good (
                report site signal i total t
                  (write_page site (ok rows) r.table).0
                  (record r { table = (write_page site (ok rows) r.table).1; channel = channel }))
        written (err e) table wrote =
            rw wrote (fail-Good r total t e table channel g (rw open_task) v)
        written (ok k) table wrote = rw wrote (
            ok-Good r total t rows table channel g (rw open_task) (told (length rows) some_rows)
              (faithful.writes rows r.table table k wrote) (rw (open_task, start, end, width, here))
              v)

    -- What a task that is not bad asks for.
    open_window :
        (s e : Option ℕ)
        → bad_window (length source) l s e ≡ 0
        → (k : ℕ) × (s ≡ some k) × (e ≡ some (k + l)) × (k < length source)
    open_window none e h = absurd (omega arith)
    open_window (some s) none h = absurd (omega arith)
    open_window (some s) (some e) h = (s, refl, ground arith, ground arith)

    -- A window task is read and written as a page.
    process_window :
        (t : DataQueueTask Row) (table : List Row) (s : ℕ)
        → t.payload ≡ none
        → t.start ≡ some s
        → t.end ≡ some (s + l)
        → process site i t t.payload table ≡ (
          write_page site (site.get_source_data_with_paging s (s + l)) table,
          got_task_without_data i t.id,
        )
    unfolding process execute_with_paging
    process_window t table s free start end = cc (free, start, end)

    handle-Good :
        (r : Run Row) (total : ℕ) (t : DataQueueTask Row)
        → get_elem? r.writers i ≡ some (working total t)
        → Good r
        → Good (handle site signal i total t r)
    unfolding handle
    handle-Good r total t g v =
        if_ind Good t.is_finished _ _ (λ done. finish-Good r total t g done v)
          λ more.
            let fine = le-sum_of (of_task (bad_task (length source) l)) r.writers i g in
            let free : t.payload ≡ none = ground (arith, v.sane) in
            let (s, start, end, lt) = open_window t.start t.end (ground (arith, v.sane)) in
            subst
              (λ x. Good (
                report site signal i total t x.0.0
                  (record r { table = x.0.1; channel = r.channel ++ x.1 ∷ [] })))
              (sym (process_window t r.table s free start end))
              (window-Good r total t s (r.channel ++ got_task_without_data i t.id ∷ []) g more start
                end lt v (site.get_source_data_with_paging s (s + l)) refl)

    pub write_step-Good :
        (r : Run Row) (w : Option (Writer Row))
        → get_elem? r.writers i ≡ w
        → Good r
        → OnSome Good (write_step site signal i w r)
    unfolding write_step
    write_step-Good r none g v = tt
    write_step-Good r (some (waiting total)) g v = get-Good r total r.data_queue g refl v
    write_step-Good r (some (working total t)) g v = handle-Good r total t g v
    write_step-Good r (some (returned total)) g v = tt
    write_step-Good r (some (Writer.raised e)) g v = tt
