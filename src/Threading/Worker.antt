-- ===== src/Threading/Worker.antt =====
-- `ParallelWorker.run` (threading/base/parallel_worker.py) and the task that it works on
-- (threading/domain/thread_task.py): what a worker makes of the first task that it gets.
use pdip.Prelude.{ℕ, String, Bool, true, false, Option, none, some, if◌then◌else◌}
use pdip.Prelude.Results.{Result, ok, err}

pub record ThreadTask (E R : Type 0) : Type 0 where
  pub id : ℕ
  pub payload : Option R
  pub is_finished : Bool
  pub state : Option ℕ
  pub result : Option R
  pub message : Option String
  pub exception : Option E
  pub traceback : Option String

-- ThreadTask(Id=thread_id, IsFinished=False)
abbrev pub new_task : {E R : Type 0} → ℕ → ThreadTask E R
new_task thread_id = record {
  id = thread_id;
  payload = none;
  is_finished = false;
  state = none;
  result = none;
  message = none;
  exception = none;
  traceback = none;
}

module _ {E R : Type 0} (format_exc : E → String) where
  -- What is put on the result channel after the target method returned or raised.
  unfoldable pub report : ℕ → ThreadTask E R → Result E R → ThreadTask E R
  report thread_id t (ok value) = record t {
    id = thread_id;
    is_finished = true;
    state = some 3;
    result = some value;
  }
  report thread_id t (err e) = record {
    id = thread_id;
    payload = none;
    is_finished = true;
    state = some 4;
    result = none;
    message = none;
    exception = some e;
    traceback = some (format_exc e);
  }

  -- `none` where the task is the signal to end.
  unfoldable pub run : ℕ → (ℕ → Result E R) → ThreadTask E R → Option (ThreadTask E R)
  unfolding report
  run thread_id target_method t =
      if t.is_finished then none else some (report thread_id t (target_method thread_id))
