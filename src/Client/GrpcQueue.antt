-- ===== src/Client/GrpcQueue.antt =====
-- model/dao/grpcqueue.cpp: a queue that is reached over gRPC. Each method is one call.
use simple_task_queue.Common.{
  to_int32, ℤ, Str, is_empty, if◌then◌else◌, Bool, false, Option, none, some, List, [],
}
use simple_task_queue.Task.{Task}
use simple_task_queue.ErrMsg.{os_error, invalid_argument}
use simple_task_queue.Exec.{Result, ok, err, Exec}
use simple_task_queue.Server.QueueImpl.{QueueReq, TaskDetailsReq, AddTaskReq, TaskDetailsRes}
use simple_task_queue.Client.{
  Channel, Status, arrived, failed, Reading, no_reader, read_all, checked, pending_details_rpc,
  finished_details_rpc, clear_pending_rpc, clear_finished_rpc, current_task_rpc, add_task_rpc,
  remove_task_rpc, is_running_rpc, start_rpc, stop_rpc, list_pending_feed, list_finished_feed,
  read_current_output_feed,
}

-- m_stub and m_queueName, after an init that succeeded.
pub record GrpcQueue (C : Channel) : Type 0 where
  pub stub : C.Stub
  pub queue_name : Str

abbrev pub queue_req : Str → QueueReq
queue_req name = record { name = name }

abbrev pub task_req : Str → ℤ → TaskDetailsReq
task_req name id = record { name = name; id = id }

unfoldable pub add_task_req : Str → Task → AddTaskReq
add_task_req name task = record {
  name = name;
  work_dir = task.work_dir;
  exec_name = task.exec_name;
  args = task.args;
}

-- Into the caller's task, whose isSuccess stays.
unfoldable pub build_task : Task → TaskDetailsRes → Task
build_task task res = record task {
  work_dir = res.work_dir;
  exec_name = res.exec_name;
  args = res.args;
  exit_code = res.exit_code;
  id = res.id;
}

-- What Finish says is thrown away.
unfoldable pub collected : {N A : Type 0} → Reading A × N → Result (List A) × N
collected (no_reader, n) = (err os_error, n)
collected (read_all out status, n) = (ok out, n)

unfoldable pub outputs : {N A : Type 0} → Reading A × N → List A × N
outputs (no_reader, n) = ([], n)
outputs (read_all out status, n) = (out, n)

unfoldable pub running : {N : Type 0} → Status Bool × N → Bool × N
running (arrived b, n) = (b, n)
running (failed cause, n) = (false, n)

module _ {C : Channel} where
  unfoldable with_stub : Str → Option C.Stub → Result (GrpcQueue C)
  with_stub name none = err os_error
  with_stub name (some stub) = ok (record { stub = stub; queue_name = name })

  -- Of a pointer to a connection, which has a pointer to a token.
  unfoldable pub init_grpc_queue : Option (Option C.Token) → Str → Result (GrpcQueue C)
  unfolding with_stub
  init_grpc_queue none name = err invalid_argument
  init_grpc_queue (some none) name = err invalid_argument
  init_grpc_queue (some (some token)) name =
      if is_empty name then err invalid_argument else with_stub name (C.new_queue_stub token)

  module _ (q : GrpcQueue C) where
    unfoldable pub grpc_list_pending : Exec C.Net (List ℤ)
    grpc_list_pending n = collected (C.stream list_pending_feed q.stub (queue_req q.queue_name) n)

    unfoldable pub grpc_list_finished : Exec C.Net (List ℤ)
    grpc_list_finished n = collected (C.stream list_finished_feed q.stub (queue_req q.queue_name) n)

    unfoldable pub grpc_pending_details : ℤ → Task → Exec C.Net Task
    grpc_pending_details id out n =
        checked (build_task out) (C.call pending_details_rpc q.stub (task_req q.queue_name id) n)

    unfoldable pub grpc_finished_details : ℤ → Task → Exec C.Net Task
    grpc_finished_details id out n =
        checked (build_task out) (C.call finished_details_rpc q.stub (task_req q.queue_name id) n)

    unfoldable pub grpc_clear_pending : Exec C.Net (Unit {0})
    grpc_clear_pending n =
        checked (λ _. tt) (C.call clear_pending_rpc q.stub (queue_req q.queue_name) n)

    unfoldable pub grpc_clear_finished : Exec C.Net (Unit {0})
    grpc_clear_finished n =
        checked (λ _. tt) (C.call clear_finished_rpc q.stub (queue_req q.queue_name) n)

    unfoldable pub grpc_current_task : Task → Exec C.Net Task
    grpc_current_task out n =
        checked (build_task out) (C.call current_task_rpc q.stub (queue_req q.queue_name) n)

    -- The task comes back with the ID.
    unfoldable pub grpc_add_task : Task → Exec C.Net Task
    grpc_add_task task n =
        checked (λ id. record task { id = id })
          (C.call add_task_rpc q.stub (add_task_req q.queue_name task) n)

    -- The ID is an i32 here, which may have 64 bits.
    unfoldable pub grpc_remove_task : ℤ → Exec C.Net (Unit {0})
    grpc_remove_task id n =
        checked (λ _. tt) (C.call remove_task_rpc q.stub (task_req q.queue_name (to_int32 id)) n)

    unfoldable pub grpc_is_running : C.Net → Bool × C.Net
    grpc_is_running n = running (C.call is_running_rpc q.stub (queue_req q.queue_name) n)

    unfoldable pub grpc_read_current_output : C.Net → List Str × C.Net
    grpc_read_current_output n =
        outputs (C.stream read_current_output_feed q.stub (queue_req q.queue_name) n)

    unfoldable pub grpc_start : Exec C.Net (Unit {0})
    grpc_start n = checked (λ _. tt) (C.call start_rpc q.stub (queue_req q.queue_name) n)

    unfoldable pub grpc_stop : C.Net → C.Net
    grpc_stop n = (C.call stop_rpc q.stub (queue_req q.queue_name) n).1
