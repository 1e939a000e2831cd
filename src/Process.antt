-- ===== src/Process.antt =====
-- model/proc/iproc.hpp: the interface IProc, through which a queue runs the process of a task.
-- A Boolean that start gives says that it failed, and exit_code gives `none` where it fails.
use simple_task_queue.Common.{Bool, Option, List, Str, ℤ}
use simple_task_queue.Task.{Task}

pub record Process : Type 1 where
  pub State : Type 0
  pub start : Task → State → Bool × State
  pub stop : State → State
  pub is_running : State → Bool × State
  pub read_current_output : State → List Str × State
  pub exit_code : State → Option ℤ × State
