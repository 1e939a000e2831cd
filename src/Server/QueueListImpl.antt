-- ===== src/Server/QueueListImpl.antt =====
-- controller/grpcserver/queuelistimpl.cpp: the handlers of the service QueueList.
use simple_task_queue.Common.{
  Option, none, some, Bool, true, false, Str, List, is_empty, ◌||◌, if◌then◌else◌, String,
}
use simple_task_queue.ErrMsg.{status_internal, status_not_found, status_invalid_argument}
use simple_task_queue.Exec.{Result}
use simple_task_queue.Sqlite.{Sqlite}
use simple_task_queue.Process.{Process}
use simple_task_queue.Queue.{Queue}
use simple_task_queue.QueueList.{
  QueueList, get_queue, create_queue, rename_queue, delete_queue, list_queue,
}
use simple_task_queue.Server.{Reply, replied, refused, reply}
use simple_task_queue.Server.QueueImpl.{QueueReq}

-- protos/queuelist.proto
pub record RenameQueueReq : Type 0 where
  pub old_name : Str
  pub new_name : Str

module _ {S : Sqlite} {P : Process} where
  unfoldable pub told : {A : Type 0} → String → Result A × QueueList S P → Reply A × QueueList S P
  told msg (r, l) = (reply msg (λ a. a) r, l)

  -- `blank` and `process` are what createQueue allocates.
  unfoldable pub serve_create :
      Queue S P
      → Option P.State
      → Option QueueReq
      → QueueList S P
      → Reply (Unit {0}) × QueueList S P
  serve_create blank process none l = (refused status_internal "Internal server error", l)
  serve_create blank process (some req) l =
      if is_empty req.name
      then (refused status_invalid_argument "\"name\" is empty string", l)
      else told "Fail to create queue" (create_queue blank process req.name l)

  unfoldable pub serve_rename :
      Option RenameQueueReq → QueueList S P → Reply (Unit {0}) × QueueList S P
  serve_rename none l = (refused status_internal "Internal server error", l)
  serve_rename (some req) l =
      if is_empty req.old_name || is_empty req.new_name
      then (refused status_invalid_argument "\"oldName\" or \"newName\" is empty string", l)
      else told "Fail to rename" (rename_queue req.old_name req.new_name l)

  unfoldable pub serve_delete : Option QueueReq → QueueList S P → Reply (Unit {0}) × QueueList S P
  serve_delete none l = (refused status_internal "Internal server error", l)
  serve_delete (some req) l =
      if is_empty req.name
      then (refused status_invalid_argument "\"name\" is empty string", l)
      else told "Fail to delete" (delete_queue req.name l)

  unfoldable pub serve_list : Bool → QueueList S P → Reply (List Str) × QueueList S P
  serve_list false l = (refused status_internal "Internal server error", l)
  serve_list true l = told "Fail to list queue" (list_queue l)

  unfoldable pub had : QueueList S P → Option (Queue S P) → Reply (Unit {0}) × QueueList S P
  had l none = (refused status_not_found "No such queue", l)
  had l (some q) = (replied tt, l)

  unfoldable pub serve_get_queue :
      Option QueueReq → QueueList S P → Reply (Unit {0}) × QueueList S P
  unfolding had
  serve_get_queue none l = (refused status_internal "Internal server error", l)
  serve_get_queue (some req) l = had l (get_queue req.name l)
