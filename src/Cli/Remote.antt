-- ===== src/Cli/Remote.antt =====
-- The terminal client over gRPC: what a command that is typed does on the server.
use simple_task_queue.Common.{
  ◌<◌, ◌≡◌, ◌⊎◌, inl, inr, refl, ap, ◌∙◌, false, Option, none, some, List, [], ◌∷◌, ◌++◌, Str, ℤ,
  length, lookup-assign, ◌==◌,
}
use simple_task_queue.Task.{Task}
use simple_task_queue.ErrMsg.{os_error, to_grpc_status}
use simple_task_queue.Exec.{Result, ok, err, hang, Ends, continue}
use simple_task_queue.Sqlite.{Sqlite}
use simple_task_queue.Process.{Process}
use simple_task_queue.Queue.{Queue, add_task}
use simple_task_queue.Queue.Contract.{Contract}
use simple_task_queue.Queue.AddLaws.{Added, NotAdded}
use simple_task_queue.Queue.Methods.{tables, Leaves, add_task-Leaves}
use simple_task_queue.QueueList.{get_queue}
use simple_task_queue.Client.{Channel}
use simple_task_queue.Client.Carries.{Carries}
use simple_task_queue.Client.GrpcQueue
use simple_task_queue.Client.GrpcQueue.{GrpcQueue}
use simple_task_queue.Client.GrpcQueueList
use simple_task_queue.Client.GrpcQueueList.{GrpcQueueList}
use simple_task_queue.Client.Remote.{Seen, remote-Seen, sent, add_task_of}
use simple_task_queue.Cli.{
  IQueue, IQueueList, text, Session, Parser, parsed, AddOpts, say, or_say, back, String,
}
use simple_task_queue.Cli.Queue.{cli_add, new_task}

-- A GRPCQueue as an IQueue, and a GRPCQueueList as an IQueueList.
abbrev pub remote_queue : {C : Channel} → GrpcQueue C → IQueue C.Net
remote_queue g = record {
  list_pending = GrpcQueue.grpc_list_pending g;
  list_finished = GrpcQueue.grpc_list_finished g;
  pending_details = GrpcQueue.grpc_pending_details g;
  finished_details = GrpcQueue.grpc_finished_details g;
  clear_pending = GrpcQueue.grpc_clear_pending g;
  clear_finished = GrpcQueue.grpc_clear_finished g;
  current_task = GrpcQueue.grpc_current_task g;
  add_task = GrpcQueue.grpc_add_task g;
  remove_task = GrpcQueue.grpc_remove_task g;
  is_running = GrpcQueue.grpc_is_running g;
  read_current_output = GrpcQueue.grpc_read_current_output g;
  start = GrpcQueue.grpc_start g;
  stop = GrpcQueue.grpc_stop g;
}

abbrev pub as_queue : {C : Channel} → Option (GrpcQueue C) × C.Net → Option (IQueue C.Net) × C.Net
as_queue (none, n) = (none, n)
as_queue (some g, n) = (some (remote_queue g), n)

abbrev pub remote_list : {C : Channel} → GrpcQueueList C → IQueueList C.Net
remote_list l = record {
  create_queue = GrpcQueueList.grpc_create_queue l;
  list_queue = GrpcQueueList.grpc_list_queue l;
  delete_queue = GrpcQueueList.grpc_delete_queue l;
  rename_queue = GrpcQueueList.grpc_rename_queue l;
  get_queue = λ name n. as_queue (GrpcQueueList.grpc_get_queue l name n);
}

module _ {C : Channel} {S : Sqlite} {P : Process} {blank : Queue S P} {process : Option P.State}
    {NetFault Fault : Type 0} (K : Contract S Fault) (W : Carries C blank process NetFault) where
  -- The queue of a name on the server, and what holds of its tables.
  abbrev pub OnServer : Str → (Queue S P → Type 0) → C.Net → Type 0
  OnServer name Q n = (q : Queue S P) × (get_queue name (W.view n) ≡ some q) × Q q

  added-OnServer :
      (name : Str) (t : Task) (n : C.Net) (q : Queue S P) (r : Result ℤ × Queue S P)
      (s : Result Task × C.Net)
      → Leaves K q (NotAdded Fault (tables K q)) (Added t (tables K q)) r
      → Seen NetFault W.view name (W.view n) (sent (add_task_of t)) r s
      → Ends
          (λ c n'.
            NetFault ⊎ OnServer name (λ q'. NotAdded Fault (tables K q) os_error (tables K q')) n')
          (λ _ n'. (id : ℤ) × OnServer name (λ q'. Added t (tables K q) id (tables K q')) n')
          s
  unfolding get_queue to_grpc_status
  added-OnServer name t n q (ok id, q') (ok b, n') h c =
      (id, (q', ap (get_queue name) c.1 ∙ lookup-assign name q' (W.view n).queues, h.0))
  added-OnServer name t n q (ok id, q') (err code, n') h c = inl c.1
  added-OnServer name t n q (err e, q') (ok b, n') h c = absurd (cc (c.0, ap to_grpc_status h.0.0))
  added-OnServer name t n q (err e, q') (err code, n') h (e5, inl c) =
      inr (q', ap (get_queue name) c ∙ lookup-assign name q' (W.view n).queues, (refl, h.0.1))
  added-OnServer name t n q (err e, q') (err code, n') h (e5, inr c) = inl c.0
  added-OnServer name t n q (hang, q') s h c = absurd h
  added-OnServer name t n q (ok id, q') (hang, n') h c = absurd c
  added-OnServer name t n q (err e, q') (hang, n') h c = absurd c

  -- The end of a command that prints what has become of a call.
  said-Ends :
      {A : Type 0} (msg good : String) (E Q : C.Net → Type 0) (s : Session C.Net)
      (r : Result A × C.Net)
      → Ends (λ c n. E n) (λ a n. Q n) r
      → Ends
          (λ c t. (c ≡ 1) × E t.world × (t.printed ≡ s.printed ++ text msg ∷ []))
          (λ _ t. Q t.world × (t.printed ≡ s.printed ++ text good ∷ []))
          (continue (λ _. say (text good)) (or_say msg (back s r)))
  said-Ends msg good E Q s (ok a, n) h = (h, refl)
  said-Ends msg good E Q s (err c, n) h = (refl, h, refl)
  said-Ends msg good E Q s (hang, n) h = h

  -- The command `add` of the terminal client over gRPC, with options that are understood and name a
  -- program, where the server has the queue and a loop over the row of the last ID ends. It ends. With
  -- the exit code 0 it prints `done`, and the queue on the server has the task of the options behind
  -- its pending tasks, with the next ID. Else the exit code is 1 and it prints that it failed; then the
  -- channel has failed, or the queue's addTask, which has added no task.
  pub cli_add-OnServer :
      (g : GrpcQueue C) (p : Parser) (args : List Str) (o : AddOpts) (exec : Str)
      (s : Session C.Net) (q : Queue S P)
      → (length args == 1) ≡ false
      → p.add args ≡ parsed o
      → o.exec ≡ some exec
      → get_queue g.queue_name (W.view s.world) ≡ some q
      → length (tables K q).last_id < S.rounds
      → Ends
          (λ c t.
            (c ≡ 1)
            × (NetFault
                ⊎ OnServer g.queue_name
                    (λ q'. NotAdded Fault (tables K q) os_error (tables K q'))
                    t.world)
            × (t.printed ≡ s.printed ++ text "Fail to add task" ∷ []))
          (λ _ t.
            ((id : ℤ) × OnServer g.queue_name
                (λ q'. Added (new_task o exec) (tables K q) id (tables K q'))
                t.world)
            × (t.printed ≡ s.printed ++ text "done" ∷ []))
          (cli_add (remote_queue g) p args s)
  unfolding cli_add
  cli_add-OnServer g p args o exec s q many opts named known rounds =
      rw (many, opts, named)
        (said-Ends "Fail to add task" "done" _ _ s
          (GrpcQueue.grpc_add_task g (new_task o exec) s.world)
          (added-OnServer g.queue_name (new_task o exec) s.world q (add_task (new_task o exec) q) _
            (add_task-Leaves K (new_task o exec) q rounds)
            (remote-Seen W (add_task_of (new_task o exec)) g s.world q known)))
