-- ===== src/Client/Remote.antt =====
-- A queue over gRPC against the queue on the server: the methods of IQueue that make one call and give a
-- code. Those that read a stream are in Lists.
use simple_task_queue.Common.{
  ◌≡◌, ◌⊎◌, refl, subst, Option, some, Str, String, ℤ, inl, inr, to_int32, assign,
}
use simple_task_queue.Task.{Task, empty_task}
use simple_task_queue.ErrMsg.{os_error, to_grpc_status, status_ok}
use simple_task_queue.Exec.{Result, ok, err, hang, Exec}
use simple_task_queue.Sqlite.{Sqlite}
use simple_task_queue.Process.{Process}
use simple_task_queue.Queue.{
  Queue, pending_details, finished_details, clear_pending, clear_finished, read_current_task,
  add_task, remove_task, start,
}
use simple_task_queue.QueueList.{QueueList, get_queue}
use simple_task_queue.Server.{reply}
use simple_task_queue.Server.QueueImpl.{
  serve_pending_details, serve_finished_details, serve_clear_pending, serve_clear_finished,
  serve_current_task, serve_add_task, serve_remove_task, serve_start, on_queue, at_queue, put_queue,
  answered, build_task_details_res, requested_task,
}
use simple_task_queue.Client.{
  Channel, Status, arrived, failed, checked, pending_details_rpc, finished_details_rpc,
  clear_pending_rpc, clear_finished_rpc, current_task_rpc, add_task_rpc, remove_task_rpc, start_rpc,
  TaskDetailsRes,
}
use simple_task_queue.Client.Carries.{Carries, Carried, serve}
use simple_task_queue.Client.GrpcQueue.{
  GrpcQueue, grpc_pending_details, grpc_finished_details, grpc_clear_pending, grpc_clear_finished,
  grpc_current_task, grpc_add_task, grpc_remove_task, grpc_start, build_task, add_task_req,
  task_req, queue_req,
}

-- One of the eight methods with its arguments; a task that a method writes to is one of them.
pub data Method : Type 0 where
  pending_details_of finished_details_of : ℤ → Task → Method
  clear_pending_of clear_finished_of start_of : Method
  current_task_of add_task_of : Task → Method
  remove_task_of : ℤ → Method

-- What the method of the queue on the server gives.
abbrev Local : Method → Type 0
Local (pending_details_of id out) = Task
Local (finished_details_of id out) = Task
Local (current_task_of out) = Task
Local (add_task_of task) = ℤ
Local _ = Unit {0}

-- What the method of the client's queue gives.
abbrev pub Remote : Method → Type 0
Remote (pending_details_of id out) = Task
Remote (finished_details_of id out) = Task
Remote (current_task_of out) = Task
Remote (add_task_of task) = Task
Remote _ = Unit {0}

-- A task arrives with 32-bit numbers, and without its isSuccess.
abbrev sent_task : Task → Task → Task
sent_task out task = record task {
  id = to_int32 task.id;
  exit_code = to_int32 task.exit_code;
  is_success = out.is_success;
}

-- What AddTask does not name of a task is lost.
abbrev asked : Task → Task
asked task = record empty_task {
  exec_name = task.exec_name;
  work_dir = task.work_dir;
  args = task.args;
}

abbrev pub sent : (m : Method) → Local m → Remote m
sent (pending_details_of id out) task = sent_task out task
sent (finished_details_of id out) task = sent_task out task
sent (current_task_of out) task = sent_task out task
sent (add_task_of task) id = record task { id = to_int32 id }
sent clear_pending_of a = a
sent clear_finished_of a = a
sent start_of a = a
sent (remove_task_of id) a = a

module _ {S : Sqlite} {P : Process} where
  abbrev pub local : (m : Method) → Queue S P → Result (Local m) × Queue S P
  local (pending_details_of id out) = pending_details id
  local (finished_details_of id out) = finished_details id
  local (current_task_of out) = read_current_task
  local (add_task_of task) = add_task (asked task)
  local clear_pending_of = clear_pending
  local clear_finished_of = clear_finished
  local start_of = start
  local (remove_task_of id) = remove_task (to_int32 id)

  -- How a call over the channel ends, by what the method does on the server: a value arrives as `conv`
  -- makes it, every code becomes OS_ERROR, and the queue of the name is changed as the method changes
  -- it. Where the channel fails the code is OS_ERROR, and the method may have run or not.
  module _ {N : Type 0} (Fault : Type 0) (view : N → QueueList S P) (name : Str)
      (l : QueueList S P) where
    abbrev pub put : Queue S P → QueueList S P
    put q = record l { queues = assign name q l.queues }

    abbrev pub Seen : {A B : Type 0} → (A → B) → Result A × Queue S P → Result B × N → Type 0
    Seen conv (ok a, q) (ok b, n) = (b ≡ conv a) × (view n ≡ put q)
    Seen conv (ok a, q) (err c, n) = (c ≡ os_error) × Fault × ((view n ≡ l) ⊎ (view n ≡ put q))
    Seen conv (err e, q) (ok b, n) = (to_grpc_status e ≡ status_ok) × (view n ≡ put q)
    Seen conv (err e, q) (err c, n) = (c ≡ os_error) × ((view n ≡ put q) ⊎ (Fault × (view n ≡ l)))
    Seen conv (hang, q) (ok b, n) = ⊥
    Seen conv (hang, q) (err c, n) = (c ≡ os_error) × ((view n ≡ l) ⊎ (view n ≡ put q))
    Seen conv _ (hang, n) = ⊥

    Carried-Seen :
        {A B O : Type 0} (g : A → B) (h : B → O) (conv : A → O) (msg : String)
        (r : Result A × Queue S P) (s : Status B × N)
        → ((a : A) → h (g a) ≡ conv a)
        → Carried Fault view l (put_queue name l (answered msg g r)) s
        → Seen conv r (checked h s)
    unfolding put_queue answered reply checked
    Carried-Seen g h conv msg (ok a, q) (arrived b, n) e c = (rw (c.0) (e a), c.1)
    Carried-Seen g h conv msg (ok a, q) (failed d, n) e c = (refl, c.0, c.1)
    Carried-Seen g h conv msg (err code, q) (arrived b, n) e c = c
    Carried-Seen g h conv msg (err code, q) (failed d, n) e (inl c) = (refl, inl c.1)
    Carried-Seen g h conv msg (err code, q) (failed d, n) e (inr (f, inl c)) = (refl, inr (f, c))
    Carried-Seen g h conv msg (err code, q) (failed d, n) e (inr (f, inr c)) = (refl, inl c)
    Carried-Seen g h conv msg (hang, q) (arrived b, n) e c = c
    Carried-Seen g h conv msg (hang, q) (failed d, n) e c = (refl, c)

  known-Seen :
      {N A B O : Type 0} (Fault : Type 0) (view : N → QueueList S P) (name : Str)
      (l : QueueList S P) (g : A → B) (h : B → O) (conv : A → O) (msg : String)
      (f : Queue S P → Result A × Queue S P) (q : Queue S P) (s : Status B × N)
      → ((a : A) → h (g a) ≡ conv a)
      → get_queue name l ≡ some q
      → Carried Fault view l (at_queue name (λ q. answered msg g (f q)) l (get_queue name l)) s
      → Seen Fault view name l conv (f q) (checked h s)
  unfolding at_queue
  known-Seen Fault view name l g h conv msg f q s e known c =
      Carried-Seen Fault view name l g h conv msg (f q) s e (
        subst (λ o. Carried Fault view l (at_queue name (λ q. answered msg g (f q)) l o) s) known c)

  module _ {C : Channel} {blank : Queue S P} {process : Option P.State} {Fault : Type 0}
      (K : Carries C blank process Fault) where
    abbrev pub remote : (m : Method) → GrpcQueue C → Exec C.Net (Remote m)
    remote (pending_details_of id out) g = grpc_pending_details g id out
    remote (finished_details_of id out) g = grpc_finished_details g id out
    remote (current_task_of out) g = grpc_current_task g out
    remote (add_task_of task) g = grpc_add_task g task
    remote clear_pending_of g = grpc_clear_pending g
    remote clear_finished_of g = grpc_clear_finished g
    remote start_of g = grpc_start g
    remote (remove_task_of id) g = grpc_remove_task g id

    -- The eight methods pendingDetails, finishedDetails, clearPending, clearFinished, currentTask, addTask,
    -- removeTask and start, called over a channel at a name that has a queue in the list on the server.
    -- Where the method on the server gives `a`, the client has OK with `a` as it is sent, or OS_ERROR
    -- where the channel fails. Where it fails, with any code that is not sent as the status OK, the
    -- client has OS_ERROR, whatever the code was. The queue that the name has in the list is changed as
    -- its method changes it, and nothing else of the list is; only where the channel fails, or the
    -- method does not end, it may be that nothing was changed.
    pub remote-Seen :
        (m : Method) (g : GrpcQueue C) (n : C.Net) (q : Queue S P)
        → get_queue g.queue_name (K.view n) ≡ some q
        → Seen Fault K.view g.queue_name (K.view n) (sent m) (local m q) (remote m g n)
    unfolding serve serve_pending_details serve_finished_details serve_current_task serve_add_task
        serve_clear_pending serve_clear_finished serve_start serve_remove_task on_queue
        grpc_pending_details grpc_finished_details grpc_current_task grpc_add_task
        grpc_clear_pending grpc_clear_finished grpc_start grpc_remove_task build_task
        build_task_details_res requested_task add_task_req
    remote-Seen (pending_details_of id out) g n q known =
        known-Seen {A = Task} {B = TaskDetailsRes} {O = Task} Fault K.view g.queue_name (K.view n)
          (build_task_details_res) (build_task out) (sent_task out) "Fail to get pending detailes"
          (pending_details id) q _ (λ a. refl) known
          (K.call_carries pending_details_rpc g.stub (task_req g.queue_name id) n)
    remote-Seen (finished_details_of id out) g n q known =
        known-Seen {A = Task} {B = TaskDetailsRes} {O = Task} Fault K.view g.queue_name (K.view n)
          (build_task_details_res) (build_task out) (sent_task out) "Fail to get pending detailes"
          (finished_details id) q _ (λ a. refl) known
          (K.call_carries finished_details_rpc g.stub (task_req g.queue_name id) n)
    remote-Seen (current_task_of out) g n q known =
        known-Seen {A = Task} {B = TaskDetailsRes} {O = Task} Fault K.view g.queue_name (K.view n)
          (build_task_details_res) (build_task out) (sent_task out) "Fail to get current task"
          read_current_task q _ (λ a. refl) known
          (K.call_carries current_task_rpc g.stub (queue_req g.queue_name) n)
    remote-Seen (add_task_of task) g n q known =
        known-Seen {A = ℤ} {B = ℤ} {O = Task} Fault K.view g.queue_name (K.view n) (to_int32)
          (λ id. record task { id = id }) (sent (add_task_of task)) "Fail to add task"
          (add_task (asked task)) q _ (λ a. refl) known
          (K.call_carries add_task_rpc g.stub (add_task_req g.queue_name task) n)
    remote-Seen clear_pending_of g n q known =
        known-Seen {A = Unit {0}} {B = Unit {0}} {O = Unit {0}} Fault K.view g.queue_name (K.view n)
          (λ a. a) (λ _. tt) (λ a. a) "Fail to clean pending" clear_pending q _ (λ a. refl) known
          (K.call_carries clear_pending_rpc g.stub (queue_req g.queue_name) n)
    remote-Seen clear_finished_of g n q known =
        known-Seen {A = Unit {0}} {B = Unit {0}} {O = Unit {0}} Fault K.view g.queue_name (K.view n)
          (λ a. a) (λ _. tt) (λ a. a) "Fail to clean finished" clear_finished q _ (λ a. refl) known
          (K.call_carries clear_finished_rpc g.stub (queue_req g.queue_name) n)
    remote-Seen start_of g n q known =
        known-Seen {A = Unit {0}} {B = Unit {0}} {O = Unit {0}} Fault K.view g.queue_name (K.view n)
          (λ a. a) (λ _. tt) (λ a. a) "Fail to start queue" start q _ (λ a. refl) known
          (K.call_carries start_rpc g.stub (queue_req g.queue_name) n)
    remote-Seen (remove_task_of id) g n q known =
        known-Seen {A = Unit {0}} {B = Unit {0}} {O = Unit {0}} Fault K.view g.queue_name (K.view n)
          (λ a. a) (λ _. tt) (λ a. a) "Fail to remove task" (remove_task (to_int32 id)) q _
          (λ a. refl) known
          (K.call_carries remove_task_rpc g.stub (task_req g.queue_name (to_int32 id)) n)
