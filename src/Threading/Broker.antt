-- ===== src/Threading/Broker.antt =====
-- `ParallelSessionBroker` (threading/base/parallel_session_broker.py). Whether a thread is alive
-- comes with each message that the broker reads. The messages that it publishes are named as those
-- of the process manager, whose texts they have but for the name of the id.
use pdip.Prelude.{
  ℕ, zero, suc, Bool, true, false, not, ◌&&◌, Option, none, some, List, [], ◌∷◌, ◌++◌, ◌==◌,
  if◌then◌else◌,
}
use pdip.Processing.Manager.{Log, will_terminate, unfinished_found, expected_to_end}
use pdip.Threading.Worker.{ThreadTask, new_task}

-- ThreadInfo (threading/domain/thread_info.py), with the stop event of its worker.
pub record ThreadInfo : Type 0 where
  pub id : ℕ
  pub is_finished : Bool
  pub stopped : Bool

pub record Arrival (E R : Type 0) : Type 0 where
  pub task : ThreadTask E R
  pub alive : ℕ → Bool

pub record Broker (E R : Type 0) : Type 0 where
  pub threads : List ThreadInfo
  pub thread_tasks : List (ThreadTask E R)
  pub process_channel : List (ThreadTask E R)
  pub channel : List Log

-- `t.Thread.stop()` for the thread with the id `k`.
unfoldable pub stop : ℕ → List ThreadInfo → List ThreadInfo
stop k [] = []
stop k (x ∷ xs) = (if x.id == k then record x { stopped = true } else x) ∷ stop k xs

-- `t.IsFinished = True` for the thread with the id `k`.
unfoldable pub mark_finished : ℕ → List ThreadInfo → List ThreadInfo
mark_finished k [] = []
mark_finished k (x ∷ xs) =
    (if x.id == k then record x { is_finished = true } else x) ∷ mark_finished k xs

-- __check_unfinished_threads
unfoldable pub check_unfinished_threads : (ℕ → Bool) → List ThreadInfo → List ThreadInfo
check_unfinished_threads alive [] = []
check_unfinished_threads alive (x ∷ xs) =
    (if not x.is_finished && not (alive x.id) then record x { is_finished = true } else x)
    ∷ check_unfinished_threads alive xs

unfoldable pub unfinished_log : (ℕ → Bool) → List ThreadInfo → List Log
unfinished_log alive [] = []
unfinished_log alive (x ∷ xs) =
    let rest = unfinished_log alive xs in
    if not x.is_finished && not (alive x.id) then unfinished_found x.id ∷ rest else rest

-- __check_all_threads_finished
unfoldable pub all_threads_finished : List ThreadInfo → Bool
all_threads_finished [] = true
all_threads_finished (x ∷ xs) = x.is_finished && all_threads_finished xs

unfoldable pub unfinished_thread_list : List ThreadInfo → List ℕ
unfinished_thread_list [] = []
unfinished_thread_list (x ∷ xs) =
    let rest = unfinished_thread_list xs in if x.is_finished then rest else x.id ∷ rest

module _ {E R : Type 0} where
  -- initialize
  abbrev pub initialize : Broker E R
  initialize = record { threads = []; thread_tasks = []; process_channel = []; channel = [] }

  -- The body of the loop of start, for the thread `k`.
  unfoldable pub start_thread : ℕ → Broker E R → Broker E R
  start_thread k b = record b {
    threads = b.threads ++ record { id = k; is_finished = false; stopped = false } ∷ [];
    process_channel = b.process_channel ++ new_task k ∷ [];
    thread_tasks = b.thread_tasks ++ new_task k ∷ [];
  }

  unfoldable pub start_from : ℕ → ℕ → Broker E R → Broker E R
  unfolding start_thread
  start_from k zero b = b
  start_from k (suc count) b = start_from (suc k) count (start_thread k b)

  unfoldable pub start : ℕ → Broker E R
  unfolding start_from
  start process_count = start_from 1 process_count initialize

  unfoldable pub copy_to : ThreadTask E R → ThreadTask E R → ThreadTask E R
  copy_to a t =
      if t.id == a.id
      then record t {
        result = a.result;
        state = a.state;
        message = a.message;
        is_finished = a.is_finished;
        exception = a.exception;
        traceback = a.traceback;
        payload = a.payload;
      }
      else t

  unfoldable pub copy_result : ThreadTask E R → List (ThreadTask E R) → List (ThreadTask E R)
  unfolding copy_to
  copy_result a [] = []
  copy_result a (t ∷ ts) = copy_to a t ∷ copy_result a ts

  -- One thread in __finish_all_threads.
  unfoldable pub finish_thread : (ℕ → Bool) → ThreadInfo → Broker E R → Broker E R
  unfolding stop mark_finished
  finish_thread alive x b =
      let b' =
        if alive x.id && not x.stopped then record b { threads = stop x.id b.threads } else b in
      if alive x.id
      then record b' {
        process_channel = b'.process_channel ++ new_task x.id ∷ [];
        channel = b'.channel ++ will_terminate x.id ∷ [];
        threads = stop x.id (mark_finished x.id b'.threads);
      }
      else b'

  -- __finish_all_threads
  unfoldable pub finish_all_threads : (ℕ → Bool) → List ThreadInfo → Broker E R → Broker E R
  unfolding finish_thread
  finish_all_threads alive [] b = b
  finish_all_threads alive (x ∷ xs) b = finish_all_threads alive xs (finish_thread alive x b)

  unfoldable pub on_error : Arrival E R → Broker E R → Broker E R
  unfolding finish_all_threads copy_result
  on_error a b =
      let b' = finish_all_threads a.alive b.threads b in
      record b' { thread_tasks = copy_result a.task b'.thread_tasks }

  unfoldable pub on_result : Arrival E R → Broker E R → Broker E R
  unfolding mark_finished copy_result check_unfinished_threads unfinished_log unfinished_thread_list
  on_result a b =
      let marked = mark_finished a.task.id b.threads in
      let checked = check_unfinished_threads a.alive marked in
      record b {
        threads = checked;
        thread_tasks = copy_result a.task b.thread_tasks;
        channel =
            b.channel
            ++ unfinished_log a.alive marked
            ++ expected_to_end (unfinished_thread_list checked) ∷ [];
      }

  unfoldable pub is_error : ThreadTask E R → Bool
  is_error t = elim t.state [ none ↦ false | some s ↦ s == 4 ]

  -- __check_threads over the messages that arrive; `none` where it still waits for one.
  unfoldable pub check_threads : List (Arrival E R) → Broker E R → Option (Broker E R)
  unfolding on_error on_result is_error all_threads_finished
  check_threads [] b = none
  check_threads (a ∷ rest) b =
      let skip = check_threads rest b in
      let b' = on_result a b in
      let go_on = check_threads rest b' in
      if a.task.is_finished
      then (if is_error a.task
          then some (on_error a b)
          else if all_threads_finished b'.threads
          then some b'
          else go_on)
      else skip
