-- ===== src/Server/Examples.antt =====
-- Calls of a server with two queues in memory, on which the lemmas about the handlers are tried.
use simple_task_queue.Common.{
  ap, to_int32, ◌≡◌, refl, some, [], ◌∷◌, codes, pos, true, arith, assign, str_eq,
}
use simple_task_queue.ErrMsg.{status_internal}
use simple_task_queue.Queue.Sample.{memory, memory_contract}
use simple_task_queue.Queue.Examples.{
  instant, started, with_third, ls_args, two_pending-IsValid, added_third,
}
use simple_task_queue.QueueList.{QueueList, get_queue}
use simple_task_queue.QueueList.Examples.{two_queues}
use simple_task_queue.Server.{reply, replied}
use simple_task_queue.Server.QueueImpl.{
  on_queue, AddTaskReq, serve_add_task, serve_pending_details, at_queue, put_queue, answered,
  requested_task,
}
use simple_task_queue.Server.Laws.{Answers}
use simple_task_queue.Server.RoundTrip.{serve_pending_details-serve_add_task, details_req, shown}

abbrev request : AddTaskReq
request = record {
  name = codes "a";
  work_dir = codes "/";
  exec_name = codes "/bin/ls";
  args = codes "-l" ∷ [];
}

abbrev after_add : QueueList memory instant
after_add = record two_queues { queues = assign (codes "a") with_third two_queues.queues }

add_request : serve_add_task (some request) true two_queues ≡ (replied (pos 3), after_add)
unfolding serve_add_task on_queue at_queue put_queue answered reply requested_task get_queue str_eq
    to_int32
add_request =
    ap (λ r. put_queue (codes "a") two_queues (answered "Fail to add task" to_int32 r)) added_third

first_queue : get_queue (codes "a") two_queues ≡ some started
unfolding get_queue str_eq
first_queue = refl

serve_pending_details-serve_add_task_example :
    (pos 3 ≡ pos 3)
    × Answers
        (λ c. (c ≡ status_internal) × ⊥)
        (λ out. out ≡ shown request (pos 3))
        (serve_pending_details (some (details_req request (pos 3))) true after_add)
serve_pending_details-serve_add_task_example =
    serve_pending_details-serve_add_task memory_contract request two_queues after_add started 3
      (pos 3) first_queue (omega arith) two_pending-IsValid ls_args add_request
