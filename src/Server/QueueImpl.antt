-- ===== src/Server/QueueImpl.antt =====
-- controller/grpcserver/queueimpl.cpp: the handlers of the service Queue.
use simple_task_queue.Common.{
  Option, none, some, Bool, true, false, Str, String, ℤ, List, [], to_int32, assign,
}
use simple_task_queue.Task.{Task, empty_task}
use simple_task_queue.ErrMsg.{status_internal, status_not_found}
use simple_task_queue.Exec.{Result, ok, err, hang}
use simple_task_queue.Sqlite.{Sqlite}
use simple_task_queue.Process.{Process}
use simple_task_queue.Queue.{
  Queue, list_pending, list_finished, pending_details, finished_details, clear_pending,
  clear_finished, read_current_task, add_task, remove_task, read_current_output, start, stop,
}
use simple_task_queue.QueueList.{QueueList, get_queue}
use simple_task_queue.Server.{Reply, replied, refused, stuck, reply}

-- The messages of protos/types.proto and protos/queue.proto.
pub record QueueReq : Type 0 where
  pub name : Str

pub record TaskDetailsReq : Type 0 where
  pub name : Str
  pub id : ℤ

pub record AddTaskReq : Type 0 where
  pub name : Str
  pub work_dir : Str
  pub exec_name : Str
  pub args : List Str

pub record TaskDetailsRes : Type 0 where
  pub work_dir : Str
  pub exec_name : Str
  pub args : List Str
  pub exit_code : ℤ
  pub id : ℤ

-- Into the empty result that a handler is given.
unfoldable pub build_task_details_res : Task → TaskDetailsRes
build_task_details_res task = record {
  work_dir = task.work_dir;
  exec_name = task.exec_name;
  args = task.args;
  exit_code = to_int32 task.exit_code;
  id = to_int32 task.id;
}

-- The task that AddTask builds.
unfoldable pub requested_task : AddTaskReq → Task
requested_task req = record empty_task {
  exec_name = req.exec_name;
  work_dir = req.work_dir;
  args = req.args;
}

-- The code of readCurrentOutput is not looked at.
wrote : {A : Type 0} → Result (List A) → Reply (List A)
wrote (ok out) = replied out
wrote (err code) = replied []
wrote hang = stuck

module _ {S : Sqlite} {P : Process} where
  unfoldable pub put_queue : {A : Type 0} → Str → QueueList S P → A × Queue S P → A × QueueList S P
  put_queue name l (a, q) = (a, record l { queues = assign name q l.queues })

  unfoldable pub at_queue :
      {A : Type 0}
      → Str
      → (Queue S P → Reply A × Queue S P)
      → QueueList S P
      → Option (Queue S P)
      → Reply A × QueueList S P
  unfolding put_queue
  at_queue name f l none = (refused status_not_found "Fail to get queue", l)
  at_queue name f l (some q) = put_queue name l (f q)

  -- What the handlers begin with: the test of the pointers, and getQueue.
  unfoldable pub on_queue :
      {A R : Type 0}
      → (R → Str)
      → (R → Queue S P → Reply A × Queue S P)
      → Option R
      → Bool
      → QueueList S P
      → Reply A × QueueList S P
  unfolding at_queue
  on_queue name f none res l = (refused status_internal "Invalid input", l)
  on_queue name f (some req) false l = (refused status_internal "Invalid input", l)
  on_queue name f (some req) true l = at_queue (name req) (f req) l (get_queue (name req) l)

  unfoldable pub answered :
      {A B : Type 0} → String → (A → B) → Result A × Queue S P → Reply B × Queue S P
  answered msg f (r, q) = (reply msg f r, q)

  -- What a streaming handler writes is its result.
  unfoldable pub serve_list_pending :
      Option QueueReq → Bool → QueueList S P → Reply (List ℤ) × QueueList S P
  serve_list_pending =
      on_queue (λ req. req.name)
        (λ req q. answered "Fail to list pending" (λ out. out) (list_pending q))

  unfoldable pub serve_list_finished :
      Option QueueReq → Bool → QueueList S P → Reply (List ℤ) × QueueList S P
  serve_list_finished =
      on_queue (λ req. req.name)
        (λ req q. answered "Fail to list finished" (λ out. out) (list_finished q))

  unfoldable pub serve_pending_details :
      Option TaskDetailsReq → Bool → QueueList S P → Reply TaskDetailsRes × QueueList S P
  serve_pending_details =
      on_queue (λ req. req.name)
        (λ req q.
          answered "Fail to get pending detailes" build_task_details_res (pending_details req.id q))

  unfoldable pub serve_finished_details :
      Option TaskDetailsReq → Bool → QueueList S P → Reply TaskDetailsRes × QueueList S P
  serve_finished_details =
      on_queue (λ req. req.name)
        (λ req q.
          answered "Fail to get pending detailes" build_task_details_res
            (finished_details req.id q))

  -- From here on a handler that ignores its result has `true` for the result's pointer.
  unfoldable pub serve_clear_pending :
      Option QueueReq → QueueList S P → Reply (Unit {0}) × QueueList S P
  serve_clear_pending req =
      on_queue (λ req. req.name)
        (λ req q. answered "Fail to clean pending" (λ out. out) (clear_pending q)) req true

  unfoldable pub serve_clear_finished :
      Option QueueReq → QueueList S P → Reply (Unit {0}) × QueueList S P
  serve_clear_finished req =
      on_queue (λ req. req.name)
        (λ req q. answered "Fail to clean finished" (λ out. out) (clear_finished q)) req true

  unfoldable pub serve_current_task :
      Option QueueReq → Bool → QueueList S P → Reply TaskDetailsRes × QueueList S P
  serve_current_task =
      on_queue (λ req. req.name)
        (λ req q. answered "Fail to get current task" build_task_details_res (read_current_task q))

  unfoldable pub serve_add_task : Option AddTaskReq → Bool → QueueList S P → Reply ℤ × QueueList S P
  serve_add_task =
      on_queue (λ req. req.name)
        (λ req q. answered "Fail to add task" to_int32 (add_task (requested_task req) q))

  unfoldable pub serve_remove_task :
      Option TaskDetailsReq → QueueList S P → Reply (Unit {0}) × QueueList S P
  serve_remove_task req =
      on_queue (λ req. req.name)
        (λ req q. answered "Fail to remove task" (λ out. out) (remove_task req.id q)) req true

  unfoldable pub serve_is_running :
      Option QueueReq → Bool → QueueList S P → Reply Bool × QueueList S P
  serve_is_running = on_queue (λ req. req.name) (λ req q. (replied q.is_running, q))

  unfoldable pub read_output : Result (List Str) × Queue S P → Reply (List Str) × Queue S P
  unfolding wrote
  read_output (r, q) = (wrote r, q)

  unfoldable pub serve_read_current_output :
      Option QueueReq → Bool → QueueList S P → Reply (List Str) × QueueList S P
  serve_read_current_output =
      on_queue (λ req. req.name) (λ req q. read_output (read_current_output q))

  unfoldable pub serve_start : Option QueueReq → QueueList S P → Reply (Unit {0}) × QueueList S P
  serve_start req =
      on_queue (λ req. req.name) (λ req q. answered "Fail to start queue" (λ out. out) (start q))
        req true

  unfoldable pub serve_stop : Option QueueReq → QueueList S P → Reply (Unit {0}) × QueueList S P
  serve_stop req = on_queue (λ req. req.name) (λ req q. (replied tt, stop q)) req true
