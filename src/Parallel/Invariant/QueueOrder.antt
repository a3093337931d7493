-- ===== src/Parallel/Invariant/QueueOrder.antt =====
-- In the task queue every window stands before every finish task, and a writer meets a finish task
-- only when no window is left.
use pdip.Prelude.{
  ℕ, zero, suc, ◌+◌, ◌<◌, ◌≤◌, ◌≡◌, refl, ap, inl, inr, Bool, true, false, Option, none, some, List,
  [], ◌∷◌, ◌++◌, arith, get_elem?, set, sum_of, sum_of-set, sum_of-snoc, Bool-cases, if_ind,
  if◌then◌else◌,
}
use pdip.Prelude.Results.{Result, ok, err}
use pdip.Parallel.Domain.{Error, DataQueueTask, finish_task, Site, Config}
use pdip.Parallel.State.{
  Cursor, Reader, counting, checking, awaiting, closing, finished, failing, Writer, waiting,
  working, returned, Run,
}
use pdip.Parallel.Reader.{past_end, take_result, read_step}
use pdip.Parallel.Writer.{raise_from, process, fail, finish, report, handle, get_task, write_step}
use pdip.Parallel.Invariant.{fins_left, fin_task, fin_writer, Inv}
use pdip.Parallel.Invariant.ReaderSteps.{OnSome}

abbrev pub open_task : {Row : Type 0} → DataQueueTask Row → ℕ
open_task t = if t.is_finished then 0 else 1

-- How many windows stand behind finish tasks.
abbrev pub overtaken : {Row : Type 0} → List (DataQueueTask Row) → ℕ
overtaken [] = 0
overtaken (t ∷ q) = (if t.is_finished then sum_of open_task q else 0) + overtaken q

pub record IsOrdered {Row : Type 0} (r : Run Row) : Type 0 where
  pub order : overtaken r.data_queue ≡ 0
  pub drained : 0 < sum_of fin_writer r.writers → sum_of open_task r.data_queue ≡ 0

module _ {Row : Type 0} where
  overtaken-snoc_finished :
      (q : List (DataQueueTask Row)) (t : DataQueueTask Row)
      → open_task t ≡ 0
      → overtaken (q ++ t ∷ []) ≡ overtaken q
  overtaken-snoc_finished [] t h = ground arith
  overtaken-snoc_finished (x ∷ q) t h =
      ground (arith, overtaken-snoc_finished q t h, sum_of-snoc open_task q t)

  overtaken-snoc_open :
      (q : List (DataQueueTask Row)) (t : DataQueueTask Row)
      → sum_of fin_task q ≡ 0
      → overtaken (q ++ t ∷ []) ≡ overtaken q
  overtaken-snoc_open [] t h = ground arith
  overtaken-snoc_open (x ∷ q) t h = ground (arith, overtaken-snoc_open q t)

module _ {Row : Type 0} (site : Site Row) (signal : ℕ → Bool) (source : List Row) (l n : ℕ)
    (before : List Row) (p : Row → Bool) where
  abbrev pub config : Config
  config = record { process_count = n; limit = some l }

  put-IsOrdered :
      (r : Run Row) (t : DataQueueTask Row) (rd : Reader)
      → overtaken (r.data_queue ++ t ∷ []) ≡ overtaken r.data_queue
      → (0 < sum_of fin_writer r.writers → open_task t ≡ 0)
      → IsOrdered r
      → IsOrdered (record r { reader = rd; data_queue = r.data_queue ++ t ∷ [] })
  put-IsOrdered r t rd e h v = record {
    order = omega (arith, v.order);
    drained = λ some_fin.
        omega (arith, sum_of-snoc open_task r.data_queue t, h some_fin, v.drained some_fin);
  }

  result-IsOrdered :
      (r : Run Row) (c : Cursor) (results : List Bool)
      → IsOrdered r
      → OnSome IsOrdered (take_result site config c results r)
  unfolding take_result
  result-IsOrdered r c [] v = tt
  result-IsOrdered r c (true ∷ rest) v = record { order = v.order; drained = v.drained }
  result-IsOrdered r c (false ∷ rest) v = record { order = v.order; drained = v.drained }

  pub read_step-IsOrdered :
      (r : Run Row) (rd : Reader)
      → r.reader ≡ rd
      → Inv source l n before p r
      → IsOrdered r
      → OnSome IsOrdered (read_step site config rd r)
  unfolding read_step
  read_step-IsOrdered r counting e i v = record { order = v.order; drained = v.drained }
  read_step-IsOrdered r (checking c) e i v =
      elim (Bool-cases (past_end c.end (some l) c.data_count)) [
        | inl past ↦ rw past (record { order = v.order; drained = v.drained })
        | inr more ↦
            let loop = ap (fins_left n) e in
            rw more (
              put-IsOrdered r _ _ (overtaken-snoc_open r.data_queue _ (omega (arith, i.fins)))
                (λ h. absurd (omega (arith, i.fins))) v)
      ]
  read_step-IsOrdered r (awaiting c) e i v = result-IsOrdered r c r.data_result_queue v
  read_step-IsOrdered r (closing zero) e i v = record { order = v.order; drained = v.drained }
  read_step-IsOrdered r (closing (suc k)) e i v =
      put-IsOrdered r finish_task (closing k)
        (overtaken-snoc_finished r.data_queue finish_task refl) (λ h. refl) v
  read_step-IsOrdered r finished e i v = tt
  read_step-IsOrdered r (failing x zero) e i v = record { order = v.order; drained = v.drained }
  read_step-IsOrdered r (failing x (suc k)) e i v =
      put-IsOrdered r _ _ (overtaken-snoc_finished r.data_queue _ refl) (λ h. refl) v
  read_step-IsOrdered r (Reader.raised x) e i v = tt

  module _ (i : ℕ) where
    -- A writer that lets go of its task.
    drop-IsOrdered :
        (r r' : Run Row) (total : ℕ) (t : DataQueueTask Row) (w : Writer Row)
        → get_elem? r.writers i ≡ some (working total t)
        → fin_writer w ≤ fin_task t
        → r'.writers ≡ set r.writers i w
        → r'.data_queue ≡ r.data_queue
        → IsOrdered r
        → IsOrdered r'
    drop-IsOrdered r r' total t w g le ew eq v =
        let swap = sum_of-set fin_writer r.writers i w g in
        record {
          order = rw eq (v.order);
          drained = rw (ew, eq) (λ h. v.drained (omega (arith, swap)));
        }

    report-IsOrdered :
        (r r' : Run Row) (total : ℕ) (t : DataQueueTask Row) (x : Result Error ℕ)
        → get_elem? r.writers i ≡ some (working total t)
        → r'.writers ≡ r.writers
        → r'.data_queue ≡ r.data_queue
        → IsOrdered r
        → IsOrdered (report site signal i total t x r')
    unfolding report fail
    report-IsOrdered r r' total t (ok k) g w q v =
        drop-IsOrdered r _ total t (waiting (total + k)) g (omega arith) (rw w) q v
    report-IsOrdered r r' total t (err e) g w q v =
        drop-IsOrdered r _ total t (Writer.raised (raise_from e)) g (omega arith) (rw w) q v

    finish-IsOrdered :
        (r : Run Row) (total : ℕ) (t : DataQueueTask Row) (x : Option Error)
        → get_elem? r.writers i ≡ some (working total t)
        → t.is_finished ≡ true
        → IsOrdered r
        → IsOrdered (finish site signal i total t x r)
    unfolding finish fail
    finish-IsOrdered r total t none g done v =
        drop-IsOrdered r _ total t (returned total) g (ground arith) refl refl v
    finish-IsOrdered r total t (some e) g done v =
        drop-IsOrdered r _ total t (Writer.raised _) g (omega arith) refl refl v

    handle-IsOrdered :
        (r : Run Row) (total : ℕ) (t : DataQueueTask Row)
        → get_elem? r.writers i ≡ some (working total t)
        → IsOrdered r
        → IsOrdered (handle site signal i total t r)
    unfolding handle
    handle-IsOrdered r total t g v =
        if_ind IsOrdered t.is_finished _ _ (λ done. finish-IsOrdered r total t t.exception g done v)
          (λ more.
            report-IsOrdered r _ total t (process site i t t.payload r.table).0.0 g refl refl v)

    get-IsOrdered :
        (r : Run Row) (total : ℕ) (queue : List (DataQueueTask Row))
        → get_elem? r.writers i ≡ some (waiting total)
        → r.data_queue ≡ queue
        → IsOrdered r
        → OnSome IsOrdered (get_task site signal i total queue r)
    unfolding get_task
    get-IsOrdered r total [] g q v = tt
    get-IsOrdered r total (t ∷ rest) g q v =
        let swap = sum_of-set fin_writer r.writers i (working total t) g in
        let sorted : overtaken (t ∷ rest) ≡ 0 = rw q at (v.order) in
        let opens = ap (sum_of open_task) q in
        record {
          order = omega (arith, sorted);
          drained = λ h. elim (Bool-cases t.is_finished) [
            | inl done ↦ ground (arith, sorted)
            | inr more ↦ ground (arith, opens, swap, v.drained)
          ];
        }

    pub write_step-IsOrdered :
        (r : Run Row) (w : Option (Writer Row))
        → get_elem? r.writers i ≡ w
        → IsOrdered r
        → OnSome IsOrdered (write_step site signal i w r)
    unfolding write_step
    write_step-IsOrdered r none g v = tt
    write_step-IsOrdered r (some (waiting total)) g v = get-IsOrdered r total r.data_queue g refl v
    write_step-IsOrdered r (some (working total t)) g v = handle-IsOrdered r total t g v
    write_step-IsOrdered r (some (returned total)) g v = tt
    write_step-IsOrdered r (some (Writer.raised e)) g v = tt
