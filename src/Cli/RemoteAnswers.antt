-- ===== src/Cli/RemoteAnswers.antt =====
-- The calls of the gRPC client end: each waits for the answer of the channel, which gives one.
use simple_task_queue.Common.{◌≡◌, subst, some, none, Option, some_inj}
use simple_task_queue.Client.{
  Channel, Status, arrived, failed, Reading, no_reader, read_all, checked,
}
use simple_task_queue.Client.GrpcQueue.{
  GrpcQueue, collected, grpc_list_pending, grpc_list_finished, grpc_pending_details,
  grpc_finished_details, grpc_clear_pending, grpc_clear_finished, grpc_current_task, grpc_add_task,
  grpc_remove_task, grpc_start,
}
use simple_task_queue.Client.GrpcQueueList.{
  GrpcQueueList, collected_ok, grpc_create_queue, grpc_list_queue, grpc_delete_queue,
  grpc_rename_queue, grpc_get_queue,
}
use simple_task_queue.Cli.{IQueue}
use simple_task_queue.Cli.Remote.{remote_queue, as_queue, remote_list}
use simple_task_queue.Cli.Answers.{NoHang, Answers, ListAnswers}

checked-NoHang : {N A B : Type 0} (f : A → B) (r : Status A × N) → NoHang (checked f r)
unfolding checked
checked-NoHang f (arrived a, n) = tt
checked-NoHang f (failed cause, n) = tt

collected-NoHang : {N A : Type 0} (r : Reading A × N) → NoHang (collected r)
unfolding collected
collected-NoHang (no_reader, n) = tt
collected-NoHang (read_all out status, n) = tt

collected_ok-NoHang : {N A : Type 0} (r : Reading A × N) → NoHang (collected_ok r)
unfolding collected_ok
collected_ok-NoHang (no_reader, n) = tt
collected_ok-NoHang (read_all out (arrived done), n) = tt
collected_ok-NoHang (read_all out (failed cause), n) = tt

module _ {C : Channel} where
  remote_queue-Answers : (g : GrpcQueue C) → Answers (remote_queue g)
  unfolding grpc_list_pending grpc_list_finished grpc_pending_details grpc_finished_details
      grpc_clear_pending grpc_clear_finished grpc_current_task grpc_add_task grpc_remove_task
      grpc_start
  remote_queue-Answers g = record {
    list_pending = λ n. collected-NoHang _;
    list_finished = λ n. collected-NoHang _;
    pending_details = λ id out n. checked-NoHang _ _;
    finished_details = λ id out n. checked-NoHang _ _;
    clear_pending = λ n. checked-NoHang _ _;
    clear_finished = λ n. checked-NoHang _ _;
    current_task = λ out n. checked-NoHang _ _;
    add_task = λ task n. checked-NoHang _ _;
    remove_task = λ id n. checked-NoHang _ _;
    start = λ n. checked-NoHang _ _;
  }

  got-Answers :
      (r : Option (GrpcQueue C) × C.Net) (q : IQueue C.Net) → (as_queue r).0 ≡ some q → Answers q
  got-Answers (none, n) q e = absurd (cc e)
  got-Answers (some g, n) q e = subst Answers (some_inj e) (remote_queue-Answers g)

  pub remote_list-Answers : (l : GrpcQueueList C) → ListAnswers (remote_list l)
  unfolding grpc_create_queue grpc_list_queue grpc_delete_queue grpc_rename_queue
  remote_list-Answers l = record {
    create_queue = λ name n. checked-NoHang _ _;
    list_queue = λ n. collected_ok-NoHang _;
    delete_queue = λ name n. checked-NoHang _ _;
    rename_queue = λ source target n. checked-NoHang _ _;
    get_queue = λ name n. got-Answers (grpc_get_queue l name n);
  }
