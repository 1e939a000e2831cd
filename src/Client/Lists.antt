-- ===== src/Client/Lists.antt =====
-- The lists of IDs over gRPC, whose final status the client throws away.
use simple_task_queue.Common.{
  ◌≡◌, refl, Option, none, some, ℤ, List, [], ◌++◌, append-nil, sym, String, Str, ◌∙◌, ◌⊎◌, inl,
  inr,
}
use simple_task_queue.ErrMsg.{os_error}
use simple_task_queue.Exec.{Result, ok, err, hang, Ends}
use simple_task_queue.Sqlite.{Sqlite}
use simple_task_queue.Process.{Process}
use simple_task_queue.Queue.{Queue, list_pending, list_finished}
use simple_task_queue.QueueList.{QueueList, get_queue}
use simple_task_queue.Server.{reply}
use simple_task_queue.Server.QueueImpl.{
  serve_list_pending, serve_list_finished, on_queue, at_queue, put_queue, answered,
}
use simple_task_queue.Client.{
  Channel, arrived, failed, Reading, no_reader, read_all, list_pending_feed, list_finished_feed,
}
use simple_task_queue.Client.Carries.{Carries, StreamCarried, serve_feed}
use simple_task_queue.Client.GrpcQueue.{
  GrpcQueue, grpc_list_pending, grpc_list_finished, collected, queue_req,
}

-- `out` is `whole`, or a first part of it where the channel fails.
abbrev pub IsRead : Type 0 → List ℤ → List ℤ → Type 0
IsRead Fault whole out = (rest : List ℤ) × (whole ≡ out ++ rest) × ((rest ≡ []) ⊎ Fault)

-- What the client's list is, by what the list on the server is; `none` where there is no queue.
abbrev pub Listed : {N : Type 0} → Type 0 → Option (Result (List ℤ)) → Result (List ℤ) × N → Type 0
Listed Fault (some (ok ids)) = Ends (λ c _. (c ≡ os_error) × Fault) (λ out _. IsRead Fault ids out)
Listed Fault (some (err code)) = Ends (λ c _. (c ≡ os_error) × Fault) (λ out _. out ≡ [])
Listed Fault (some hang) = Ends (λ c _. (c ≡ os_error) × Fault) (λ out _. out ≡ [])
Listed Fault none = Ends (λ c _. (c ≡ os_error) × Fault) (λ out _. out ≡ [])

abbrev pub listed_by :
    {S : Sqlite} {P : Process}
    → (Queue S P → Result (List ℤ) × Queue S P)
    → Option (Queue S P)
    → Option (Result (List ℤ))
listed_by f none = none
listed_by f (some q) = some (f q).0

module _ {S : Sqlite} {P : Process} {N : Type 0} (Fault : Type 0) where
  result-Listed :
      (view : N → QueueList S P) (l : QueueList S P) (name : Str) (msg : String)
      (r : Result (List ℤ) × Queue S P) (s : Reading ℤ × N)
      → StreamCarried Fault view l (put_queue name l (answered msg (λ out. out) r)) s
      → Listed Fault (some r.0) (collected s)
  unfolding put_queue answered reply collected
  result-Listed view l name msg (ok ids, q) (no_reader, n) c = (refl, c.0)
  result-Listed view l name msg (ok ids, q) (read_all out (arrived d), n) c =
      ([], sym (c.0) ∙ sym (append-nil out), inl refl)
  result-Listed view l name msg (ok ids, q) (read_all out (failed d), n) c = (c.0.0, c.0.1, inr c.1)
  result-Listed view l name msg (err e, q) (no_reader, n) c = (refl, c.0)
  result-Listed view l name msg (err e, q) (read_all out (arrived d), n) c = c.0
  result-Listed view l name msg (err e, q) (read_all out (failed d), n) c = c.0
  result-Listed view l name msg (hang, q) (no_reader, n) c = (refl, c.0)
  result-Listed view l name msg (hang, q) (read_all out (arrived d), n) c = absurd c
  result-Listed view l name msg (hang, q) (read_all out (failed d), n) c = c.0

  at_queue-Listed :
      (view : N → QueueList S P) (l : QueueList S P) (name : Str) (msg : String)
      (f : Queue S P → Result (List ℤ) × Queue S P) (o : Option (Queue S P)) (s : Reading ℤ × N)
      → StreamCarried Fault view l (at_queue name (λ q. answered msg (λ out. out) (f q)) l o) s
      → Listed Fault (listed_by f o) (collected s)
  unfolding at_queue collected
  at_queue-Listed view l name msg f (some q) s c = result-Listed view l name msg (f q) s c
  at_queue-Listed view l name msg f none (no_reader, n) c = (refl, c.0)
  at_queue-Listed view l name msg f none (read_all out (arrived d), n) c = c.0
  at_queue-Listed view l name msg f none (read_all out (failed d), n) c = c.0

module _ {C : Channel} {S : Sqlite} {P : Process} {blank : Queue S P} {process : Option P.State}
    {Fault : Type 0} (K : Carries C blank process Fault) (g : GrpcQueue C) (n : C.Net) where
  -- The client's listPending fails only where the channel does. Else it gives the IDs that the queue
  -- on the server lists, or a first part of them if the channel fails on the way; and it gives an
  -- empty list, with OK, where the server has no queue of the name, or where its list fails with any
  -- code.
  pub grpc_list_pending-Listed :
      Listed Fault
        (listed_by list_pending (get_queue g.queue_name (K.view n)))
        (grpc_list_pending g n)
  unfolding serve_feed serve_list_pending on_queue grpc_list_pending
  grpc_list_pending-Listed =
      at_queue-Listed Fault K.view (K.view n) g.queue_name "Fail to list pending" list_pending
        (get_queue g.queue_name (K.view n)) _
        (K.stream_carries list_pending_feed g.stub (queue_req g.queue_name) n)

  -- The same of listFinished.
  grpc_list_finished-Listed :
      Listed Fault
        (listed_by list_finished (get_queue g.queue_name (K.view n)))
        (grpc_list_finished g n)
  unfolding serve_feed serve_list_finished on_queue grpc_list_finished
  grpc_list_finished-Listed =
      at_queue-Listed Fault K.view (K.view n) g.queue_name "Fail to list finished" list_finished
        (get_queue g.queue_name (K.view n)) _
        (K.stream_carries list_finished_feed g.stub (queue_req g.queue_name) n)
