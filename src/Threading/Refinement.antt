-- ===== src/Threading/Refinement.antt =====
-- The thread broker does what the process manager does.
use pdip.Prelude.{
  ℕ, zero, suc, ◌≡◌, refl, ap, ◌∙◌, Bool, true, false, not, ◌&&◌, List, [], ◌∷◌, ◌++◌, map, arith,
  if◌then◌else◌, Bool-cases, inl, inr,
}
use mathlib.Core.List.{map-append}
use mathlib.Core.Option
use pdip.Processing.Manager as Manager
use pdip.Processing.Manager.{ProcessTask, ProcessInfo, Manager, check_processes, start_processes}
use pdip.Threading.Worker.{ThreadTask, new_task}
use pdip.Threading.Broker.{
  ThreadInfo, Arrival, Broker, stop, mark_finished, check_unfinished_threads, unfinished_log,
  all_threads_finished, unfinished_thread_list, initialize, start_thread, start_from, start,
  copy_result, finish_thread, finish_all_threads, on_error, on_result, is_error, check_threads,
}

abbrev to_info : ThreadInfo → ProcessInfo
to_info x = record { sub_process_id = x.id; is_finished = x.is_finished }

mark_finished_lem :
    (k : ℕ) (xs : List ThreadInfo)
    → Manager.mark_finished k (map to_info xs) ≡ map to_info (mark_finished k xs)
unfolding mark_finished Manager.mark_finished
mark_finished_lem k [] = refl
mark_finished_lem k (x ∷ xs) = ground (arith, mark_finished_lem k xs)

stop_lem : (k : ℕ) (xs : List ThreadInfo) → map to_info (stop k xs) ≡ map to_info xs
unfolding stop
stop_lem k [] = refl
stop_lem k (x ∷ xs) = ground (arith, stop_lem k xs)

check_unfinished_lem :
    (alive : ℕ → Bool) (xs : List ThreadInfo)
    → Manager.check_unfinished alive (map to_info xs)
      ≡ map to_info (check_unfinished_threads alive xs)
unfolding check_unfinished_threads Manager.check_unfinished
check_unfinished_lem alive [] = refl
check_unfinished_lem alive (x ∷ xs) = ground (arith, check_unfinished_lem alive xs)

unfinished_log_lem :
    (alive : ℕ → Bool) (xs : List ThreadInfo)
    → Manager.unfinished_log alive (map to_info xs) ≡ unfinished_log alive xs
unfolding unfinished_log Manager.unfinished_log
unfinished_log_lem alive [] = refl
unfinished_log_lem alive (x ∷ xs) = ground (arith, unfinished_log_lem alive xs)

all_finished_lem :
    (xs : List ThreadInfo) → Manager.all_finished (map to_info xs) ≡ all_threads_finished xs
unfolding all_threads_finished Manager.all_finished
all_finished_lem [] = refl
all_finished_lem (x ∷ xs) = ap (λ b. x.is_finished && b) (all_finished_lem xs)

unfinished_ids_lem :
    (xs : List ThreadInfo) → Manager.unfinished_ids (map to_info xs) ≡ unfinished_thread_list xs
unfolding unfinished_thread_list Manager.unfinished_ids
unfinished_ids_lem [] = refl
unfinished_ids_lem (x ∷ xs) = ground (arith, unfinished_ids_lem xs)

module _ {E R : Type 0} where
  abbrev pub to_process_task : ThreadTask E R → ProcessTask E R
  to_process_task t = record {
    payload = t.payload;
    sub_process_id = t.id;
    is_finished = t.is_finished;
    state = t.state;
    result = t.result;
    message = t.message;
    exception = t.exception;
    traceback = t.traceback;
  }

  abbrev pub to_process_arrival : Arrival E R → Manager.Arrival E R
  to_process_arrival a = record { task = to_process_task a.task; alive = a.alive }

  -- The broker as a manager that has terminated the processes `terminated`; the stop events of the
  -- threads are forgotten.
  abbrev pub to_manager : List ℕ → Broker E R → Manager E R
  to_manager terminated b = record {
    processes = map to_info b.threads;
    process_tasks = map to_process_task b.thread_tasks;
    process_queue = map to_process_task b.process_channel;
    terminated = terminated;
    log = b.channel;
  }

  copy_result_lem :
      (a : ThreadTask E R) (ts : List (ThreadTask E R))
      → Manager.copy_result (to_process_task a) (map to_process_task ts)
        ≡ map to_process_task (copy_result a ts)
  unfolding copy_result Manager.copy_result
  copy_result_lem a [] = refl
  copy_result_lem a (t ∷ ts) = ground (arith, copy_result_lem a ts)

  on_result_lem :
      (terminated : List ℕ) (a : Arrival E R) (b : Broker E R)
      → Manager.on_result (to_process_arrival a) (to_manager terminated b)
        ≡ to_manager terminated (on_result a b)
  unfolding on_result Manager.on_result
  on_result_lem terminated a b =
      let marked = mark_finished a.task.id b.threads in
      rw
        (
          mark_finished_lem a.task.id b.threads,
          check_unfinished_lem a.alive marked,
          unfinished_log_lem a.alive marked,
          unfinished_ids_lem (check_unfinished_threads a.alive marked),
          copy_result_lem a.task b.thread_tasks,
        )
        refl

  -- A thread that is alive, whether or not its stop event was set before.
  alive_lem :
      (stopped : Bool) (k : ℕ) (terminated : List ℕ) (b : Broker E R)
      → record (to_manager terminated b) {
        processes = Manager.mark_finished k (map to_info b.threads);
        process_queue = map to_process_task b.process_channel ++ Manager.new_task k ∷ [];
        terminated = terminated ++ k ∷ [];
        log = b.channel ++ Manager.will_terminate k ∷ [];
      }
        ≡ to_manager (terminated ++ k ∷ []) (
            let b' : Broker E R =
              if not stopped then record b { threads = stop k b.threads } else b in
            record b' {
              process_channel = b'.process_channel ++ new_task k ∷ [];
              channel = b'.channel ++ Manager.will_terminate k ∷ [];
              threads = stop k (mark_finished k b'.threads);
            })
  alive_lem true k terminated b =
      rw
        (
          stop_lem k (mark_finished k b.threads),
          mark_finished_lem k b.threads,
          map-append to_process_task b.process_channel (new_task k ∷ []),
        )
        refl
  alive_lem false k terminated b =
      rw
        (
          stop_lem k (mark_finished k (stop k b.threads)),
          ← mark_finished_lem k (stop k b.threads),
          stop_lem k b.threads,
          map-append to_process_task b.process_channel (new_task k ∷ []),
        )
        refl

  finish_thread_lem :
      (alive : ℕ → Bool) (x : ThreadInfo) (terminated : List ℕ) (b : Broker E R)
      → (if alive x.id
          then record (to_manager terminated b) {
            processes = Manager.mark_finished x.id (map to_info b.threads);
            process_queue = map to_process_task b.process_channel ++ Manager.new_task x.id ∷ [];
            terminated = terminated ++ x.id ∷ [];
            log = b.channel ++ Manager.will_terminate x.id ∷ [];
          }
          else to_manager terminated b)
        ≡ to_manager
            (if alive x.id then terminated ++ x.id ∷ [] else terminated)
            (finish_thread alive x b)
  unfolding finish_thread
  finish_thread_lem alive x terminated b = elim (Bool-cases (alive x.id)) [
    | inl e ↦ rw e (alive_lem x.stopped x.id terminated b)
    | inr e ↦ rw e refl
  ]

  pub finish_all_lem :
      (alive : ℕ → Bool) (xs : List ThreadInfo) (terminated : List ℕ) (b : Broker E R)
      → (terminated' : List ℕ) × (Manager.finish_all alive
            (map to_info xs)
            (to_manager terminated b)
          ≡ to_manager terminated' (finish_all_threads alive xs b))
  unfolding finish_all_threads Manager.finish_all
  finish_all_lem alive [] terminated b = (terminated, refl)
  finish_all_lem alive (x ∷ xs) terminated b =
      let first : List ℕ = if alive x.id then terminated ++ x.id ∷ [] else terminated in
      let (last, same) = finish_all_lem alive xs first (finish_thread alive x b) in
      (
        last,
        ap (Manager.finish_all alive (map to_info xs)) (finish_thread_lem alive x terminated b)
            ∙ same,
      )

  on_error_lem :
      (terminated : List ℕ) (a : Arrival E R) (b : Broker E R)
      → (terminated' : List ℕ) × (Manager.on_error (to_process_arrival a) (to_manager terminated b)
          ≡ to_manager terminated' (on_error a b))
  unfolding on_error Manager.on_error
  on_error_lem terminated a b =
      let b' = finish_all_threads a.alive b.threads b in
      let (terminated', same) = finish_all_lem a.alive b.threads terminated b in
      (terminated', rw (same, copy_result_lem a.task b'.thread_tasks) refl)

  -- The broker refines the process manager: on the same messages it waits exactly where the manager
  -- waits, and otherwise ends in the state that the manager ends in, with the same results, the same
  -- threads finished, the same tasks on the queue and the same messages published, whichever of
  -- them have been stopped before.
  pub check_threads-refines :
      (arrivals : List (Arrival E R)) (terminated : List ℕ) (b : Broker E R)
      → (terminated' : List ℕ) × (check_processes
            (map to_process_arrival arrivals)
            (to_manager terminated b)
          ≡ Option.map (to_manager terminated') (check_threads arrivals b))
  unfolding check_threads check_processes is_error Manager.is_error
  check_threads-refines [] terminated b = (terminated, refl)
  check_threads-refines (a ∷ rest) terminated b =
      let b' = on_result a b in
      let step = on_result_lem terminated a b in
      let done = ap (λ m. Manager.all_finished m.processes) step ∙ all_finished_lem b'.threads in
      let (failed, raised) = on_error_lem terminated a b in
      let (last, later) = check_threads-refines rest terminated b' in
      let (skipped, skip) = check_threads-refines rest terminated b in
      elim (Bool-cases a.task.is_finished) [
        | inr open_task ↦ (skipped, ground (arith, skip))
        | inl closed ↦ elim (Bool-cases (is_error a.task)) [
          | inl e ↦ (failed, ground (arith, raised))
          | inr e ↦ elim (Bool-cases (all_threads_finished b'.threads)) [
            | inl d ↦ (terminated, ground (arith, step, done))
            | inr d ↦ (last, ground (arith, step, done, later))
          ]
        ]
      ]

  start_from_lem :
      (k count : ℕ) (b : Broker E R)
      → Manager.start_from k count (to_manager [] b) ≡ to_manager [] (start_from k count b)
  unfolding start_from start_thread Manager.start_from Manager.start_process
  start_from_lem k zero b = refl
  start_from_lem k (suc count) b =
      let info : ThreadInfo = record { id = k; is_finished = false; stopped = false } in
      let first : Manager.start_process k (to_manager [] b) ≡ to_manager [] (start_thread k b) =
        rw
          (
            map-append to_info b.threads (info ∷ []),
            map-append to_process_task b.process_channel (new_task k ∷ []),
            map-append to_process_task b.thread_tasks (new_task k ∷ []),
          )
          refl in
      ap (Manager.start_from (suc k) count) first ∙ start_from_lem (suc k) count (start_thread k b)

  pub start_lem : (count : ℕ) → start_processes count ≡ to_manager [] (start count)
  unfolding start start_processes
  start_lem count = start_from_lem 1 count initialize
