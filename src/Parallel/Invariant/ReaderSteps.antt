-- ===== src/Parallel/Invariant/ReaderSteps.antt =====
-- The steps of the reader keep the invariant.
use pdip.Prelude.{
  ℕ, zero, suc, ◌+◌, ◌-◌, ◌<◌, ◌≤◌, ◌≡◌, refl, ap, subst, inl, inr, Bool, true, false, not, Option,
  none, some, List, [], ◌∷◌, arith, length, take, count, sum_of-snoc, length-snoc, count-take-add,
  Bool-cases, ltb, leb, if◌then◌else◌,
}
use pdip.Parallel.Domain.{DataQueueTask, finish_task, Log, source_finished, Site, Config}
use pdip.Parallel.State.{
  Cursor, Reader, counting, checking, awaiting, closing, finished, failing, Run,
}
use pdip.Parallel.Reader.{
  past_end, advance, window_task, resume, read_count, put_window, put, publish_and, take_result,
  read_step,
}
use pdip.Parallel.Invariant.{
  IsFaithful, fins_left, bad_task, task_weight, on_the_way, failed, Position, Inv,
}

-- What holds of the result of a step, if there is one.
abbrev pub OnSome {ℓ κ} : {A : Type ℓ} → (A → Type κ) → Option A → Type κ
OnSome P none = Unit
OnSome P (some a) = P a

module _ {Row : Type 0} (site : Site Row) (source : List Row) (l n : ℕ) (before : List Row)
    (p : Row → Bool) (faithful : IsFaithful site source) (l_pos : 0 < l) where
  abbrev pub config : Config
  config = record { process_count = n; limit = some l }

  abbrev pub Good : Run Row → Type 0
  Good = Inv source l n before p

  at :
      {r : Run Row} (rd : Reader)
      → r.reader ≡ rd
      → (v : Good r) → Position (length source) l n v.handed rd r
  at {r} rd e v = subst (λ x. Position (length source) l n v.handed x r) e v.position

  count-Good : (r : Run Row) → r.reader ≡ counting → Good r → Good (read_count site config r)
  unfolding read_count
  count-Good r e v =
      let here = at counting e v in
      rw faithful.counts (elim (Bool-cases (ltb 0 (length source))) [
        | inl some_rows ↦ rw some_rows (record {
          handed = v.handed;
          position = ground arith;
          balance = v.balance;
          sane = v.sane;
          fins = ground arith;
          size = v.size;
          falses = v.falses;
        })
        | inr no_rows ↦ rw no_rows (record {
          handed = v.handed;
          position = ground arith;
          balance = v.balance;
          sane = v.sane;
          fins = ground arith;
          size = v.size;
          falses = v.falses;
        })
      ])

  -- The end of the loop: every row has been handed out.
  past-Good :
      (r : Run Row) (c : Cursor)
      → r.reader ≡ checking c
      → past_end c.end (some l) c.data_count ≡ true
      → Good r
      → Good (record r { reader = closing n })
  unfolding past_end
  past-Good r c e past v =
      let here = at (checking c) e v in
      record {
        handed = v.handed;
        position = ground arith;
        balance = v.balance;
        sane = v.sane;
        fins = ground arith;
        size = v.size;
        falses = v.falses;
      }

  -- A put of a finish task.
  put-Good :
      (r : Run Row) (k : ℕ)
      → r.reader ≡ closing (suc k)
      → Good r
      → Good (put site config finish_task (closing k) r)
  unfolding put
  put-Good r k e v =
      let here = at (closing (suc k)) e v in
      let more = λ (f : DataQueueTask Row → ℕ). sum_of-snoc f r.data_queue finish_task in
      record {
        handed = v.handed;
        position = here;
        balance = λ none_failed. rw more (ground (arith, v.balance none_failed));
        sane = rw more (ground arith);
        fins = rw more (ground arith);
        size = v.size;
        falses = v.falses;
      }

  publish-Good :
      (r : Run Row) (log : Log)
      → r.reader ≡ closing zero
      → Good r
      → Good (publish_and site config log finished r)
  unfolding publish_and
  publish-Good r log e v = record {
    handed = v.handed;
    position = at (closing zero) e v;
    balance = v.balance;
    sane = v.sane;
    fins = ground arith;
    size = v.size;
    falses = v.falses;
  }

  -- The rows of the next window come after those that were handed out.
  window_weight_lem :
      (c : Cursor) (h : ℕ)
      → c.start ≡ h
      → c.end ≡ some (h + l)
      → count p (take h source) + task_weight p source (window_task (some l) c)
        ≡ count p (take (h + l) source)
  unfolding window_task
  window_weight_lem c h s e =
      let width : (h + l) - h ≡ l = omega arith in rw (s, e, width, count-take-add)

  window_bad_lem :
      (c : Cursor) (h : ℕ)
      → c.start ≡ h
      → c.end ≡ some (h + l)
      → h < length source
      → bad_task (length source) l (window_task {Row = Row} (some l) c) ≡ 0
  unfolding window_task
  window_bad_lem c h s e lt = rw (s, e) (ground arith)

  -- The position after a window was put.
  put_position :
      (c : Cursor) (r : Run Row) (h : ℕ)
      → c.data_count ≡ length source
      → c.start ≡ h
      → c.end ≡ some (h + l)
      → c.transmitted_data_count ≡ on_the_way r
      → failed r ≤ count not r.data_result_queue
      → h < length source
      → Position
          (length source)
          l
          n
          (h + l)
          (if leb n c.transmitted_data_count
            then awaiting c
            else resume site config (advance (some l) c))
          r
  unfolding resume advance
  put_position c r h d s e t f lt = elim (Bool-cases (leb n c.transmitted_data_count)) [
    | inl full ↦ rw full (ground arith)
    | inr room ↦ rw (room, e) (ground arith)
  ]

  put_fins :
      (c : Cursor) (e : ℕ)
      → c.end ≡ some e
      → fins_left n (
          if leb n c.transmitted_data_count
          then awaiting c
          else resume site config (advance (some l) c))
        ≡ n
  unfolding resume advance
  put_fins c e h = elim (Bool-cases (leb n c.transmitted_data_count)) [
    | inl full ↦ rw full
    | inr room ↦ rw (room, h)
  ]

  window-Good :
      (r : Run Row) (c : Cursor)
      → r.reader ≡ checking c
      → past_end c.end (some l) c.data_count ≡ false
      → Good r
      → Good (put_window site config c r)
  unfolding put_window past_end window_task
  window-Good r c e more_rows v =
      let (d, s, f, t, falses, rows) = at (checking c) e v in
      let lt : v.handed < length source = ground arith in
      let c' = record c { transmitted_data_count = c.transmitted_data_count + 1; id = c.id + 1 } in
      let more =
        λ (g : DataQueueTask Row → ℕ). sum_of-snoc g r.data_queue (window_task (some l) c') in
      record {
        handed = v.handed + l;
        position =
            put_position c' (put_window site config c r) v.handed d s f
              (omega (arith, length-snoc r.data_queue (window_task (some l) c'), t)) falses lt;
        balance = λ none_failed.
            rw more (ground (arith, v.balance none_failed, window_weight_lem c' v.handed s f));
        sane = rw more (omega (arith, v.sane, window_bad_lem c' v.handed s f lt));
        fins = rw more (omega (arith, v.fins, put_fins c' (v.handed + l) f, ap (fins_left n) e));
        size = v.size;
        falses = v.falses;
      }

  result-Good :
      (r : Run Row) (c : Cursor) (results : List Bool)
      → r.reader ≡ awaiting c
      → r.data_result_queue ≡ results
      → Good r
      → OnSome Good (take_result site config c results r)
  unfolding take_result resume advance
  result-Good r c [] e q v = tt
  result-Good r c (true ∷ rest) e q v =
      let (d, s, f, t, falses, lt, full) = at (awaiting c) e v in
      let falses' = ap (count not) q in
      let len = ap length q in
      rw f (record {
        handed = v.handed;
        position = ground arith;
        balance = v.balance;
        sane = v.sane;
        fins = omega (arith, v.fins, ap (fins_left n) e);
        size = v.size;
        falses = ground arith;
      })
  result-Good r c (false ∷ rest) e q v =
      let (d, s, f, t, falses, lt, full) = at (awaiting c) e v in
      let falses' = ap (count not) q in
      let len = ap length q in
      record {
        handed = v.handed;
        position = ground arith;
        balance = v.balance;
        sane = v.sane;
        fins = omega (arith, v.fins, ap (fins_left n) e);
        size = v.size;
        falses = ground arith;
      }

  pub read_step-Good :
      (r : Run Row) (rd : Reader)
      → r.reader ≡ rd
      → Good r
      → OnSome Good (read_step site config rd r)
  unfolding read_step
  read_step-Good r counting e v = count-Good r e v
  read_step-Good r (checking c) e v = elim (Bool-cases (past_end c.end (some l) c.data_count)) [
    | inl past ↦ rw past (past-Good r c e past v)
    | inr more ↦ rw more (window-Good r c e more v)
  ]
  read_step-Good r (awaiting c) e v = result-Good r c r.data_result_queue e refl v
  read_step-Good r (closing zero) e v = publish-Good r source_finished e v
  read_step-Good r (closing (suc k)) e v = put-Good r k e v
  read_step-Good r finished e v = tt
  read_step-Good r (failing x k) e v = absurd (at (failing x k) e v)
  read_step-Good r (Reader.raised x) e v = tt
