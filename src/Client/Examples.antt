-- ===== src/Client/Examples.antt =====
-- A channel that loses nothing, to a server with two queues in memory.
use simple_task_queue.Common.{
  assign, ◌≡◌, ◌⊎◌, refl, ap, some, codes, List, [], pos, inl, inr, arith, to_int32, str_eq,
}
use simple_task_queue.ErrMsg.{os_error}
use simple_task_queue.Exec.{ok, Ends}
use simple_task_queue.Task.{empty_task}
use simple_task_queue.Queue.{list_pending}
use simple_task_queue.Queue.Sample.{memory, memory_contract}
use simple_task_queue.Queue.Examples.{
  instant, started, with_third, ls, ls_args, two_pending-IsValid, added_third,
}
use simple_task_queue.QueueList.{QueueList, get_queue}
use simple_task_queue.QueueList.Examples.{two_queues}
use simple_task_queue.Server.{Reply, replied, refused, stuck, reply}
use simple_task_queue.Server.QueueImpl.{
  serve_add_task, on_queue, at_queue, put_queue, answered, requested_task,
}
use simple_task_queue.Client.{
  Channel, Status, arrived, failed, from_server, from_channel, Reading, read_all, checked,
}
use simple_task_queue.Client.Carries.{Carries, Carried, StreamCarried, serve, serve_feed}
use simple_task_queue.Client.GrpcQueue.{
  add_task_req, GrpcQueue, grpc_add_task, grpc_pending_details, grpc_list_pending,
}
use simple_task_queue.Client.Remote.{Seen, remote, remote-Seen, sent, local, add_task_of}
use simple_task_queue.Client.Lists.{Listed, listed_by, grpc_list_pending-Listed}
use simple_task_queue.Client.RoundTrip.{grpc_pending_details-grpc_add_task}

abbrev Srv : Type 0
Srv = QueueList memory instant

pub status_of : {A : Type 0} → Reply A × Srv → Status A × Srv
status_of (replied a, l) = (arrived a, l)
status_of (refused c msg, l) = (failed (from_server c), l)
status_of (stuck, l) = (failed from_channel, l)

pub reading_of : {A : Type 0} → Reply (List A) × Srv → Reading A × Srv
reading_of (replied out, l) = (read_all out (arrived tt), l)
reading_of (refused c msg, l) = (read_all [] (failed (from_server c)), l)
reading_of (stuck, l) = (read_all [] (failed from_channel), l)

abbrev pub direct : Channel
direct = record {
  Net = Srv;
  Token = Unit {0};
  Stub = Unit {0};
  create_channel = λ target. some tt;
  new_access_stub = λ token. some tt;
  new_queue_stub = λ token. some tt;
  new_list_stub = λ token. some tt;
  echo = λ stub n. (arrived tt, n);
  call = λ m stub req n. status_of (serve started (some tt) m req n);
  stream = λ m stub req n. reading_of (serve_feed m req n);
}

pub status_of-Carried :
    {A : Type 0} (l : Srv) (r : Reply A × Srv)
    → Carried {S = memory} {P = instant} {N = Srv} ⊥ (λ n. n) l r (status_of r)
unfolding status_of
status_of-Carried l (replied a, l') = (refl, refl)
status_of-Carried l (refused c msg, l') = inl (refl, refl)
status_of-Carried l (stuck, l') = inr refl

pub reading_of-Carried :
    {A : Type 0} (l : Srv) (r : Reply (List A) × Srv)
    → StreamCarried {S = memory} {P = instant} {N = Srv} ⊥ (λ n. n) l r (reading_of r)
unfolding reading_of
reading_of-Carried l (replied out, l') = (refl, refl)
reading_of-Carried l (refused c msg, l') = (refl, inl (refl, refl))
reading_of-Carried l (stuck, l') = (refl, inr refl)

abbrev pub direct_carries : Carries direct {S = memory} {P = instant} started (some tt) ⊥
direct_carries = record {
  view = λ n. n;
  call_carries = λ m stub req n. status_of-Carried n (serve started (some tt) m req n);
  stream_carries = λ m stub req n. reading_of-Carried n (serve_feed m req n);
}

abbrev pub queue_a : GrpcQueue direct
queue_a = record { stub = tt; queue_name = codes "a" }

pub first_queue : get_queue (codes "a") two_queues ≡ some started
unfolding get_queue str_eq
first_queue = refl

remote-Seen_example :
    Seen {S = memory} {P = instant} {N = Srv} ⊥
      (λ n. n)
      (codes "a")
      two_queues
      (sent (add_task_of ls))
      (local (add_task_of ls) started)
      (remote direct_carries (add_task_of ls) queue_a two_queues)
remote-Seen_example =
    remote-Seen direct_carries (add_task_of ls) queue_a two_queues started first_queue

abbrev lost : GrpcQueue direct
lost = record { stub = tt; queue_name = codes "c" }

grpc_list_pending-Listed_example :
    Listed {N = Srv} ⊥
      (listed_by list_pending (get_queue (codes "c") two_queues))
      (grpc_list_pending lost two_queues)
grpc_list_pending-Listed_example = grpc_list_pending-Listed direct_carries lost two_queues

abbrev after_add : Srv
after_add = record two_queues { queues = assign (codes "a") with_third two_queues.queues }

added_ls : grpc_add_task queue_a ls two_queues ≡ (ok (record ls { id = pos 3 }), after_add)
unfolding grpc_add_task checked status_of serve serve_add_task on_queue at_queue put_queue answered
    reply requested_task add_task_req get_queue str_eq to_int32
added_ls =
    ap
      (λ r.
        checked (λ id. record ls { id = id })
          (status_of (put_queue (codes "a") two_queues (answered "Fail to add task" to_int32 r))))
      added_third

grpc_pending_details-grpc_add_task_example :
    (record ls { id = pos 3 } ≡ record ls { id = pos 3 })
    × Ends
        (λ c _. (c ≡ os_error) × (⊥ ⊎ ⊥))
        (λ t _. t ≡ record ls { id = pos 3 })
        (grpc_pending_details queue_a (pos 3) empty_task after_add)
grpc_pending_details-grpc_add_task_example =
    grpc_pending_details-grpc_add_task memory_contract direct_carries queue_a ls
      (record ls { id = pos 3 }) empty_task two_queues after_add started 3 first_queue (omega arith)
      two_pending-IsValid ls_args added_ls
