-- ===== src/Processing/Subprocess.antt =====
-- `Subprocess.start` (pdip/processing/base/subprocess.py): what a subprocess makes of the first task
-- that it gets.
use pdip.Prelude.{ℕ, String, true, Option, none, some, if◌then◌else◌}
use pdip.Prelude.Results.{Result, ok, err}
use pdip.Processing.Manager.{ProcessTask}

module _ {E R : Type 0} (format_exc : E → String) where
  -- The message for a call of the target method that returned or raised.
  unfoldable pub report : ℕ → ProcessTask E R → Result E R → ProcessTask E R
  report k t (ok value) = record t {
    sub_process_id = k;
    is_finished = true;
    state = some 3;
    result = some value;
  }
  report k t (err e) = record {
    payload = none;
    sub_process_id = k;
    is_finished = true;
    state = some 4;
    result = none;
    message = none;
    exception = some e;
    traceback = some (format_exc e);
  }

  -- `none` where the task is the signal to end, and nothing is put on the result queue.
  unfoldable pub start : ℕ → (ℕ → Result E R) → ProcessTask E R → Option (ProcessTask E R)
  unfolding report
  start k target_method t = if t.is_finished then none else some (report k t (target_method k))
