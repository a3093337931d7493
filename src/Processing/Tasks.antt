-- ===== src/Processing/Tasks.antt =====
-- The processes and the tasks of the manager, counted by their ids.
use pdip.Prelude.{
  ℕ, zero, suc, ◌+◌, ◌<◌, ◌≤◌, ◌≡◌, ◌≢◌, refl, String, Bool, true, false, ◌&&◌, List, [], ◌∷◌,
  arith, count, sum_of, sum_of-snoc, count-snoc, leb, ltb, ◌==◌, if◌then◌else◌, is_none,
}
use pdip.Prelude.Results.{ok}
use pdip.Processing.Manager.{
  ProcessTask, ProcessInfo, Arrival, Manager, new_task, start_from, start_process, copy_result,
  mark_finished, check_unfinished, all_finished,
}
use pdip.Processing.Subprocess.{report}
use pdip.Processing.Totals.{result_or_zero, add_results}

-- A process that returned a value, and which processes are alive when the message is read.
pub record Answer : Type 0 where
  pub id : ℕ
  pub value : ℕ
  pub alive : ℕ → Bool

abbrev pub unfinished : ProcessInfo → ℕ
unfinished x = if x.is_finished then 0 else 1

abbrev pub unfinished_at : ℕ → ProcessInfo → ℕ
unfinished_at k x = if x.sub_process_id == k then unfinished x else 0

-- How many of the answers are those of the process `k`.
abbrev pub answers_of : ℕ → List Answer → ℕ
answers_of k rest = count (λ a. a.id == k) rest

-- A process is alive until its answer has been read.
abbrev pub AliveUntilRead : List Answer → Type 0
AliveUntilRead [] = Unit
AliveUntilRead (a ∷ rest) =
    ((k : ℕ) → 0 < answers_of k rest → a.alive k ≡ true) × AliveUntilRead rest

abbrev pub all_marked : (k : ℕ) (xs : List ProcessInfo) → ℕ
all_marked k xs = sum_of (unfinished_at k) xs

pub mark_unfinished :
    (k : ℕ) (xs : List ProcessInfo)
    → sum_of unfinished (mark_finished k xs) + sum_of (unfinished_at k) xs ≡ sum_of unfinished xs
unfolding mark_finished
mark_unfinished k [] = refl
mark_unfinished k (x ∷ xs) = ground (arith, mark_unfinished k xs)

pub mark_unfinished_at :
    (k j : ℕ) (xs : List ProcessInfo)
    → sum_of (unfinished_at j) (mark_finished k xs)
      ≡ (if k == j then 0 else sum_of (unfinished_at j) xs)
unfolding mark_finished
mark_unfinished_at k j [] = ground arith
mark_unfinished_at k j (x ∷ xs) = ground (arith, mark_unfinished_at k j xs)

-- Where the unfinished processes are alive, none is written off.
pub check_alive :
    (alive : ℕ → Bool) (xs : List ProcessInfo)
    → ((k : ℕ) → 0 < sum_of (unfinished_at k) xs → alive k ≡ true)
    → check_unfinished alive xs ≡ xs
unfolding check_unfinished
check_alive alive [] h = refl
check_alive alive (x ∷ xs) h =
    ground (arith, h x.sub_process_id, check_alive alive xs (λ k some_left. h k (omega arith)))

pub all_finished_iff : (xs : List ProcessInfo) → all_finished xs ≡ (sum_of unfinished xs == 0)
unfolding all_finished
all_finished_iff [] = refl
all_finished_iff (x ∷ xs) = ground (arith, all_finished_iff xs)

abbrev pub in_range : ℕ → ℕ → ℕ → ℕ
in_range j c k = if leb j k && ltb k (j + c) then 1 else 0

module _ {E : Type 0} where
  abbrev pub result_of : ProcessTask E ℕ → ℕ
  result_of t = result_or_zero t.result

  abbrev pub result_at : ℕ → ProcessTask E ℕ → ℕ
  result_at k t = if t.sub_process_id == k then result_of t else 0

  abbrev pub exceptions : ProcessTask E ℕ → ℕ
  exceptions t = if is_none t.exception then 0 else 1

  pub add_results_lem :
      (total : ℕ) (ts : List (ProcessTask E ℕ))
      → sum_of exceptions ts ≡ 0
      → add_results total ts ≡ ok (total + sum_of result_of ts)
  unfolding add_results
  add_results_lem total [] h = ground arith
  add_results_lem total (t ∷ ts) h =
      ground (arith, add_results_lem (total + result_or_zero t.result) ts)

  -- What starting the processes j, …, j + c - 1 adds.
  pub record Started (j c : ℕ) (m m' : Manager E ℕ) : Type 0 where
    pub open_at :
        (k : ℕ)
        → sum_of (unfinished_at k) m'.processes
          ≡ sum_of (unfinished_at k) m.processes + in_range j c k
    pub total : sum_of unfinished m'.processes ≡ sum_of unfinished m.processes + c
    pub tasks :
        (k : ℕ)
        → count (λ t. t.sub_process_id == k) m'.process_tasks
          ≡ count (λ t. t.sub_process_id == k) m.process_tasks + in_range j c k
    pub results : sum_of result_of m'.process_tasks ≡ sum_of result_of m.process_tasks
    pub results_at :
        (k : ℕ) → sum_of (result_at k) m'.process_tasks ≡ sum_of (result_at k) m.process_tasks
    pub clean : sum_of exceptions m'.process_tasks ≡ sum_of exceptions m.process_tasks

  pub start_from-Started : (j c : ℕ) (m : Manager E ℕ) → Started j c m (start_from j c m)
  unfolding start_from start_process
  start_from-Started j zero m = record {
    open_at = λ k. ground arith;
    total = omega arith;
    tasks = λ k. ground arith;
    results = refl;
    results_at = λ k. refl;
    clean = refl;
  }
  start_from-Started j (suc c) m =
      let rest = start_from-Started (suc j) c (start_process j m) in
      let info : ProcessInfo = record { sub_process_id = j; is_finished = false } in
      let task : ProcessTask E ℕ = new_task j in
      record {
        open_at =
            λ k. ground (arith, rest.open_at k, sum_of-snoc (unfinished_at k) m.processes info);
        total = omega (arith, rest.total, sum_of-snoc unfinished m.processes info);
        tasks = λ k.
            ground
              (arith, rest.tasks k, count-snoc (λ t. t.sub_process_id == k) m.process_tasks task);
        results = omega (arith, rest.results, sum_of-snoc result_of m.process_tasks task);
        results_at =
            λ k. ground (arith, rest.results_at k, sum_of-snoc (result_at k) m.process_tasks task);
        clean = omega (arith, rest.clean, sum_of-snoc exceptions m.process_tasks task);
      }

module _ {E : Type 0} (format_exc : E → String) where
  abbrev pub to_arrival : Answer → Arrival E ℕ
  to_arrival a = record {
    task = report format_exc a.id (new_task a.id) (ok a.value);
    alive = a.alive;
  }

  abbrev pub copied : Answer → List (ProcessTask E ℕ) → List (ProcessTask E ℕ)
  copied a ts = copy_result (to_arrival a).task ts

  pub copied_ids :
      (k : ℕ) (a : Answer) (ts : List (ProcessTask E ℕ))
      → count (λ t. t.sub_process_id == k) (copied a ts) ≡ count (λ t. t.sub_process_id == k) ts
  unfolding copy_result report
  copied_ids k a [] = refl
  copied_ids k a (t ∷ ts) = ground (arith, copied_ids k a ts)

  pub copied_results :
      (a : Answer) (ts : List (ProcessTask E ℕ))
      → count (λ t. t.sub_process_id == a.id) ts ≤ 1
      → sum_of result_of (copied a ts) + sum_of (result_at a.id) ts
        ≡ sum_of result_of ts
          + (if count (λ t. t.sub_process_id == a.id) ts == 0 then 0 else a.value)
  unfolding copy_result report
  copied_results a [] h = refl
  copied_results a (t ∷ ts) h = ground (arith, copied_results a ts)

  pub copied-exceptions :
      (a : Answer) (ts : List (ProcessTask E ℕ))
      → sum_of exceptions ts ≡ 0
      → sum_of exceptions (copied a ts) ≡ 0
  unfolding copy_result report
  copied-exceptions a [] h = refl
  copied-exceptions a (t ∷ ts) h = ground (arith, copied-exceptions a ts)

  pub copied-result_at :
      (k : ℕ) (a : Answer) (ts : List (ProcessTask E ℕ))
      → a.id ≢ k
      → sum_of (result_at k) (copied a ts) ≡ sum_of (result_at k) ts
  unfolding copy_result report
  copied-result_at k a [] h = refl
  copied-result_at k a (t ∷ ts) h = ground (arith, copied-result_at k a ts h)
