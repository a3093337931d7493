-- ===== src/Processing/Manager.antt =====
-- `ProcessManager` (pdip/processing/base/process_manager.py) with its models ProcessTask and
-- ProcessInfo. The operating system's part, whether a process is alive, comes with each message
-- that the manager reads.
use pdip.Prelude.{
  ℕ, zero, suc, String, Bool, true, false, not, ◌&&◌, Option, none, some, List, [], ◌∷◌, ◌++◌, ◌==◌,
  if◌then◌else◌,
}

pub record ProcessTask (E R : Type 0) : Type 0 where
  pub payload : Option R
  pub sub_process_id : ℕ
  pub is_finished : Bool
  pub state : Option ℕ
  pub result : Option R
  pub message : Option String
  pub exception : Option E
  pub traceback : Option String

pub record ProcessInfo : Type 0 where
  pub sub_process_id : ℕ
  pub is_finished : Bool

pub data Log : Type 0 where
  will_terminate unfinished_found : ℕ → Log
  expected_to_end : List ℕ → Log

-- A message of the result queue, and which processes are alive when the manager reads it.
pub record Arrival (E R : Type 0) : Type 0 where
  pub task : ProcessTask E R
  pub alive : ℕ → Bool

-- `terminated` lists the processes on which `terminate` was called.
pub record Manager (E R : Type 0) : Type 0 where
  pub processes : List ProcessInfo
  pub process_tasks : List (ProcessTask E R)
  pub process_queue : List (ProcessTask E R)
  pub terminated : List ℕ
  pub log : List Log

unfoldable pub mark_finished : ℕ → List ProcessInfo → List ProcessInfo
mark_finished k [] = []
mark_finished k (x ∷ xs) =
    (if x.sub_process_id == k then record x { is_finished = true } else x) ∷ mark_finished k xs

-- __check_unfinished_processes
unfoldable pub check_unfinished : (ℕ → Bool) → List ProcessInfo → List ProcessInfo
check_unfinished alive [] = []
check_unfinished alive (x ∷ xs) =
    (if not x.is_finished && not (alive x.sub_process_id)
      then record x { is_finished = true }
      else x)
    ∷ check_unfinished alive xs

unfoldable pub unfinished_log : (ℕ → Bool) → List ProcessInfo → List Log
unfinished_log alive [] = []
unfinished_log alive (x ∷ xs) =
    let rest = unfinished_log alive xs in
    if not x.is_finished && not (alive x.sub_process_id)
    then unfinished_found x.sub_process_id ∷ rest
    else rest

-- __check_all_processes_finished
unfoldable pub all_finished : List ProcessInfo → Bool
all_finished [] = true
all_finished (x ∷ xs) = x.is_finished && all_finished xs

unfoldable pub unfinished_ids : List ProcessInfo → List ℕ
unfinished_ids [] = []
unfinished_ids (x ∷ xs) =
    let rest = unfinished_ids xs in if x.is_finished then rest else x.sub_process_id ∷ rest

module _ {E R : Type 0} where
  -- ProcessTask(SubProcessId=k, IsFinished=False)
  abbrev pub new_task : ℕ → ProcessTask E R
  new_task k = record {
    payload = none;
    sub_process_id = k;
    is_finished = false;
    state = none;
    result = none;
    message = none;
    exception = none;
    traceback = none;
  }

  -- __configure_process
  abbrev pub configured : Manager E R
  configured = record {
    processes = [];
    process_tasks = [];
    process_queue = [];
    terminated = [];
    log = [];
  }

  -- The body of the loop of start_processes, for the process `k`.
  unfoldable pub start_process : ℕ → Manager E R → Manager E R
  start_process k m = record m {
    processes = m.processes ++ record { sub_process_id = k; is_finished = false } ∷ [];
    process_queue = m.process_queue ++ new_task k ∷ [];
    process_tasks = m.process_tasks ++ new_task k ∷ [];
  }

  -- `for i in range(process_count)`, from the process `k` on.
  unfoldable pub start_from : ℕ → ℕ → Manager E R → Manager E R
  unfolding start_process
  start_from k zero m = m
  start_from k (suc count) m = start_from (suc k) count (start_process k m)

  unfoldable pub start_processes : ℕ → Manager E R
  unfolding start_from
  start_processes process_count = start_from 1 process_count configured

  -- Where a task has the id of the message, its fields become those of the message.
  unfoldable pub copy_to : ProcessTask E R → ProcessTask E R → ProcessTask E R
  copy_to a t =
      if t.sub_process_id == a.sub_process_id
      then record t {
        result = a.result;
        state = a.state;
        message = a.message;
        is_finished = a.is_finished;
        exception = a.exception;
        traceback = a.traceback;
        payload = a.payload;
      }
      else t

  unfoldable pub copy_result : ProcessTask E R → List (ProcessTask E R) → List (ProcessTask E R)
  unfolding copy_to
  copy_result a [] = []
  copy_result a (t ∷ ts) = copy_to a t ∷ copy_result a ts

  -- __finish_all_processes
  unfoldable pub finish_all : (ℕ → Bool) → List ProcessInfo → Manager E R → Manager E R
  finish_all alive [] m = m
  finish_all alive (x ∷ xs) m = finish_all alive xs (
      if alive x.sub_process_id
      then record m {
        processes = mark_finished x.sub_process_id m.processes;
        process_queue = m.process_queue ++ new_task x.sub_process_id ∷ [];
        terminated = m.terminated ++ x.sub_process_id ∷ [];
        log = m.log ++ will_terminate x.sub_process_id ∷ [];
      }
      else m)

  -- A message with State 4: the others are terminated, and the loop ends.
  unfoldable pub on_error : Arrival E R → Manager E R → Manager E R
  unfolding finish_all mark_finished copy_result
  on_error a m =
      let m' = finish_all a.alive m.processes m in
      record m' { process_tasks = copy_result a.task m'.process_tasks }

  -- Any other finished message, up to the test that ends the loop.
  unfoldable pub on_result : Arrival E R → Manager E R → Manager E R
  unfolding mark_finished copy_result check_unfinished unfinished_log unfinished_ids
  on_result a m =
      let marked = mark_finished a.task.sub_process_id m.processes in
      let checked = check_unfinished a.alive marked in
      record m {
        processes = checked;
        process_tasks = copy_result a.task m.process_tasks;
        log =
            m.log ++ unfinished_log a.alive marked ++ expected_to_end (unfinished_ids checked) ∷ [];
      }

  unfoldable pub is_error : ProcessTask E R → Bool
  is_error t = elim t.state [ none ↦ false | some s ↦ s == 4 ]

  -- __check_processes over the messages that arrive; `none` where it still waits for one.
  unfoldable pub check_processes : List (Arrival E R) → Manager E R → Option (Manager E R)
  unfolding on_error on_result is_error all_finished
  check_processes [] m = none
  check_processes (a ∷ rest) m =
      let skip = check_processes rest m in
      let m' = on_result a m in
      let go_on = check_processes rest m' in
      if a.task.is_finished
      then (if is_error a.task
          then some (on_error a m)
          else if all_finished m'.processes
          then some m'
          else go_on)
      else skip
