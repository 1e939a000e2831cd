-- ===== src/Client/GrpcQueueList.antt =====
-- model/dao/grpcqueuelist.cpp: the queues of a server, over gRPC.
use simple_task_queue.Common.{Str, Option, none, some, List}
use simple_task_queue.ErrMsg.{os_error, invalid_argument}
use simple_task_queue.Exec.{Result, ok, err, hang, Exec}
use simple_task_queue.Server.QueueListImpl.{RenameQueueReq}
use simple_task_queue.Client.{
  Channel, Status, arrived, failed, Reading, no_reader, read_all, checked, create_rpc, rename_rpc,
  delete_rpc, get_queue_rpc, list_feed,
}
use simple_task_queue.Client.GrpcQueue.{GrpcQueue, init_grpc_queue, queue_req}

-- m_stub and m_conn, after an init that succeeded.
pub record GrpcQueueList (C : Channel) : Type 0 where
  pub stub : C.Stub
  pub token : C.Token

-- Here the status that Finish gives counts.
unfoldable pub collected_ok : {N A : Type 0} → Reading A × N → Result (List A) × N
collected_ok (no_reader, n) = (err os_error, n)
collected_ok (read_all out (arrived done), n) = (ok out, n)
collected_ok (read_all out (failed cause), n) = (err os_error, n)

abbrev rename_req : Str → Str → RenameQueueReq
rename_req old_name new_name = record { old_name = old_name; new_name = new_name }

module _ {C : Channel} where
  unfoldable list_of : C.Token → Option C.Stub → Result (GrpcQueueList C)
  list_of token none = err os_error
  list_of token (some stub) = ok (record { stub = stub; token = token })

  unfoldable pub init_grpc_queue_list : Option (Option C.Token) → Result (GrpcQueueList C)
  unfolding list_of
  init_grpc_queue_list none = err invalid_argument
  init_grpc_queue_list (some none) = err invalid_argument
  init_grpc_queue_list (some (some token)) = list_of token (C.new_list_stub token)

  -- A queue whose init fails is deleted.
  unfoldable pub kept : Result (GrpcQueue C) → Option (GrpcQueue C)
  kept (ok q) = some q
  kept (err code) = none
  kept hang = none

  unfoldable pub found : C.Token → Str → Status (Unit {0}) × C.Net → Option (GrpcQueue C) × C.Net
  unfolding kept
  found token name (arrived done, n) = (kept (init_grpc_queue (some (some token)) name), n)
  found token name (failed cause, n) = (none, n)

  module _ (l : GrpcQueueList C) where
    unfoldable pub grpc_create_queue : Str → Exec C.Net (Unit {0})
    grpc_create_queue name n = checked (λ _. tt) (C.call create_rpc l.stub (queue_req name) n)

    unfoldable pub grpc_list_queue : Exec C.Net (List Str)
    grpc_list_queue n = collected_ok (C.stream list_feed l.stub tt n)

    unfoldable pub grpc_delete_queue : Str → Exec C.Net (Unit {0})
    grpc_delete_queue name n = checked (λ _. tt) (C.call delete_rpc l.stub (queue_req name) n)

    unfoldable pub grpc_rename_queue : Str → Str → Exec C.Net (Unit {0})
    grpc_rename_queue old_name new_name n =
        checked (λ _. tt) (C.call rename_rpc l.stub (rename_req old_name new_name) n)

    unfoldable pub grpc_get_queue : Str → C.Net → Option (GrpcQueue C) × C.Net
    unfolding found
    grpc_get_queue name n = found l.token name (C.call get_queue_rpc l.stub (queue_req name) n)
