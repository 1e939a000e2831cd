-- ===== src/Client/Carries.antt =====
-- What the client relies on in gRPC: a call that is answered has run the handler of protos/queue.proto
-- or protos/queuelist.proto once, on the request as it was sent. Between two calls of a client the
-- server stays as it is.
use simple_task_queue.Common.{◌≡◌, ◌⊎◌, true, Option, some, List, [], ◌++◌}
use simple_task_queue.ErrMsg.{status_ok}
use simple_task_queue.Sqlite.{Sqlite}
use simple_task_queue.Process.{Process}
use simple_task_queue.Queue.{Queue}
use simple_task_queue.QueueList.{QueueList}
use simple_task_queue.Server.{Reply, replied, refused, stuck}
use simple_task_queue.Server.QueueImpl.{
  serve_pending_details, serve_finished_details, serve_clear_pending, serve_clear_finished,
  serve_current_task, serve_add_task, serve_remove_task, serve_is_running, serve_start, serve_stop,
  serve_list_pending, serve_list_finished, serve_read_current_output,
}
use simple_task_queue.Server.QueueListImpl.{
  serve_create, serve_rename, serve_delete, serve_get_queue, serve_list,
}
use simple_task_queue.Client.{
  Rpc, pending_details_rpc, finished_details_rpc, clear_pending_rpc, clear_finished_rpc,
  current_task_rpc, add_task_rpc, remove_task_rpc, is_running_rpc, start_rpc, stop_rpc, create_rpc,
  rename_rpc, delete_rpc, get_queue_rpc, Request, Response, Feed, list_pending_feed,
  list_finished_feed, read_current_output_feed, list_feed, FeedRequest, Item, from_server, Status,
  arrived, failed, Reading, no_reader, read_all, Channel,
}

module _ {S : Sqlite} {P : Process} where
  -- `blank` and `process` are what Create allocates. gRPC gives a handler no null pointer.
  unfoldable pub serve :
      Queue S P
      → Option P.State
      → (m : Rpc) → Request m
      → QueueList S P
      → Reply (Response m) × QueueList S P
  serve blank process pending_details_rpc req = serve_pending_details (some req) true
  serve blank process finished_details_rpc req = serve_finished_details (some req) true
  serve blank process clear_pending_rpc req = serve_clear_pending (some req)
  serve blank process clear_finished_rpc req = serve_clear_finished (some req)
  serve blank process current_task_rpc req = serve_current_task (some req) true
  serve blank process add_task_rpc req = serve_add_task (some req) true
  serve blank process remove_task_rpc req = serve_remove_task (some req)
  serve blank process is_running_rpc req = serve_is_running (some req) true
  serve blank process start_rpc req = serve_start (some req)
  serve blank process stop_rpc req = serve_stop (some req)
  serve blank process create_rpc req = serve_create blank process (some req)
  serve blank process rename_rpc req = serve_rename (some req)
  serve blank process delete_rpc req = serve_delete (some req)
  serve blank process get_queue_rpc req = serve_get_queue (some req)

  unfoldable pub serve_feed :
      (m : Feed) → FeedRequest m → QueueList S P → Reply (List (Item m)) × QueueList S P
  serve_feed list_pending_feed req = serve_list_pending (some req) true
  serve_feed list_finished_feed req = serve_list_finished (some req) true
  serve_feed read_current_output_feed req = serve_read_current_output (some req) true
  serve_feed list_feed req = serve_list true

  -- `Fault` says that the channel has failed: the server has run the handler, or not.
  module _ {N : Type 0} (Fault : Type 0) (view : N → QueueList S P) (l : QueueList S P) where
    abbrev pub Carried : {A : Type 0} → Reply A × QueueList S P → Status A × N → Type 0
    Carried (replied a, l') (arrived b, n) = (b ≡ a) × (view n ≡ l')
    Carried (replied a, l') (failed d, n) = Fault × ((view n ≡ l) ⊎ (view n ≡ l'))
    Carried (refused c msg, l') (arrived b, n) = (c ≡ status_ok) × (view n ≡ l')
    Carried (refused c msg, l') (failed d, n) =
        ((d ≡ from_server c) × (view n ≡ l')) ⊎ (Fault × ((view n ≡ l) ⊎ (view n ≡ l')))
    Carried (stuck, l') (arrived b, n) = ⊥
    Carried (stuck, l') (failed d, n) = (view n ≡ l) ⊎ (view n ≡ l')

    -- Of a reply that is read before the channel fails there may be a part.
    abbrev pub StreamCarried :
        {A : Type 0} → Reply (List A) × QueueList S P → Reading A × N → Type 0
    StreamCarried (r, l') (no_reader, n) = Fault × (view n ≡ l)
    StreamCarried (replied out, l') (read_all got (arrived done), n) = (got ≡ out) × (view n ≡ l')
    StreamCarried {A} (replied out, l') (read_all got (failed d), n) =
        ((rest : List A) × (out ≡ got ++ rest)) × Fault × ((view n ≡ l) ⊎ (view n ≡ l'))
    StreamCarried (refused c msg, l') (read_all got (arrived done), n) =
        (got ≡ []) × (c ≡ status_ok) × (view n ≡ l')
    StreamCarried (refused c msg, l') (read_all got (failed d), n) =
        (got ≡ [])
        × (((d ≡ from_server c) × (view n ≡ l')) ⊎ (Fault × ((view n ≡ l) ⊎ (view n ≡ l'))))
    StreamCarried (stuck, l') (read_all got (arrived done), n) = ⊥
    StreamCarried (stuck, l') (read_all got (failed d), n) =
        (got ≡ []) × ((view n ≡ l) ⊎ (view n ≡ l'))

-- With `Fault` false the channel is reliable.
pub record Carries (C : Channel) {S : Sqlite} {P : Process} (blank : Queue S P)
    (process : Option P.State) (Fault : Type 0) : Type 0 where
  pub view : C.Net → QueueList S P
  pub call_carries :
      (m : Rpc) (stub : C.Stub) (req : Request m) (n : C.Net)
      → Carried Fault view (view n) (serve blank process m req (view n)) (C.call m stub req n)
  pub stream_carries :
      (m : Feed) (stub : C.Stub) (req : FeedRequest m) (n : C.Net)
      → StreamCarried Fault view (view n) (serve_feed m req (view n)) (C.stream m stub req n)
