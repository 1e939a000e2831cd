-- ===== src/Task.antt =====
-- model/proc/task.hpp and task.cpp: what a queue holds.
use simple_task_queue.Common.{Bool, false, List, [], Str, ℤ, pos}

pub record Task : Type 0 where
  pub exec_name : Str
  pub args : List Str
  pub work_dir : Str
  pub id : ℤ
  pub exit_code : ℤ
  pub is_success : Bool

-- The constructor Task::Task().
abbrev pub empty_task : Task
empty_task = record {
  exec_name = [];
  args = [];
  work_dir = [];
  id = pos 0;
  exit_code = pos 0;
  is_success = false;
}
