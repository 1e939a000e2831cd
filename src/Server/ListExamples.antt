-- ===== src/Server/ListExamples.antt =====
-- Calls of the service QueueList in memory, and a scan of a directory with one database.
use simple_task_queue.Queue.Schema.{connect_to_db, verify_all, verify_table, verify_id}
use simple_task_queue.Sqlite.{
  attempt, finally, fetch, prepare, bind_all, bind, fetch_loop, step, release, execute,
}
use simple_task_queue.Common.{
  str_eq, take, drop, ◌≡◌, refl, some, true, List, [], ◌∷◌, Str, Option, codes, false,
}
use simple_task_queue.Queue.{Queue, init, on_token}
use simple_task_queue.Exec.{ok}
use simple_task_queue.QueueList.Laws.{is_some}
use simple_task_queue.Queue.Sample.{memory}
use simple_task_queue.Queue.Examples.{instant}
use simple_task_queue.Queue.SchemaExamples.{no_tables, closed_token}
use simple_task_queue.Task.{empty_task}
use simple_task_queue.QueueList.{
  scan, scan_entry, after_create, created, file_queue, after_last, before_last, find_last_of,
  get_queue, QueueList, FileKind, regular_file, directory, init_list, delete_queue, rename_queue,
  create_queue,
}
use simple_task_queue.QueueList.Examples.{two_queues, two_queues-IsSound}
use simple_task_queue.QueueList.Files.{database_path}
use simple_task_queue.QueueList.Restart.{MadeFrom, init_list-create_queue}
use simple_task_queue.QueueList.Scan.{InitEnds, init_list-InitEnds}
use simple_task_queue.Server.{reply, replied, refused}
use simple_task_queue.ErrMsg.{status_not_found}
use simple_task_queue.Server.QueueImpl.{QueueReq}
use simple_task_queue.Server.QueueListImpl.{
  RenameQueueReq, serve_delete, serve_rename, serve_create, serve_get_queue, told,
}
use simple_task_queue.Server.ListLaws.{serve_get_queue-serve_rename}

abbrev blank_queue : Queue no_tables instant
blank_queue = record {
  token = closed_token;
  process = tt;
  current_task = empty_task;
  is_running = false;
  start_flag = false;
}

abbrev no_queues : QueueList no_tables instant
no_queues = record { path = some (codes "/srv"); queues = [] }

abbrev srv_files : List (FileKind × Str × Option (Unit {0}))
srv_files =
    (directory, codes "/srv/old.db", some tt)
    ∷ (regular_file, codes "/srv/a.db", some tt)
    ∷ (regular_file, codes "/srv/notes.txt", some tt)
    ∷ []

init_list-InitEnds_example :
    InitEnds srv_files no_queues
      (init_list blank_queue (some (codes "/srv")) true srv_files no_queues)
init_list-InitEnds_example =
    init_list-InitEnds blank_queue (some (codes "/srv")) true srv_files no_queues

abbrev a_request : QueueReq
a_request = record { name = codes "a" }

abbrev without_a : QueueList memory instant
without_a = (delete_queue (codes "a") two_queues).1

deleted_a : serve_delete (some a_request) two_queues ≡ (replied tt, without_a)
unfolding serve_delete told reply delete_queue str_eq
deleted_a = refl

abbrev a_to_c : RenameQueueReq
a_to_c = record { old_name = codes "a"; new_name = codes "c" }

abbrev renamed_a : QueueList memory instant
renamed_a = (rename_queue (codes "a") (codes "c") two_queues).1

renamed_reply : serve_rename (some a_to_c) two_queues ≡ (replied tt, renamed_a)
unfolding serve_rename told reply rename_queue str_eq
renamed_reply = refl

serve_get_queue-serve_rename_example :
    serve_get_queue (some a_request) renamed_a
    ≡ (refused status_not_found "No such queue", renamed_a)
serve_get_queue-serve_rename_example =
    serve_get_queue-serve_rename a_to_c two_queues renamed_a two_queues-IsSound renamed_reply

abbrev with_a : QueueList no_tables instant
with_a = (serve_create blank_queue (some tt) (some a_request) no_queues).1

created_a : serve_create blank_queue (some tt) (some a_request) no_queues ≡ (replied tt, with_a)
unfolding serve_create told reply create_queue init on_token connect_to_db verify_all attempt
    verify_table finally fetch prepare bind_all bind fetch_loop step release execute verify_id
created_a = refl

-- The server has made the queue `a`, and starts again.
abbrev a_file : List (FileKind × Str × Option (Unit {0}))
a_file = (regular_file, database_path (codes "/srv") (codes "a"), some tt) ∷ []

abbrev started_again : QueueList no_tables instant
started_again = (init_list blank_queue (some (codes "/srv")) true a_file no_queues).1

starts_again :
    init_list blank_queue (some (codes "/srv")) true a_file no_queues ≡ (ok tt, started_again)
unfolding init_list scan scan_entry after_create created file_queue after_last before_last
    find_last_of create_queue init on_token connect_to_db verify_all attempt verify_table finally
    fetch prepare bind_all bind fetch_loop step release execute verify_id str_eq take drop
starts_again = refl

init_list-create_queue_example :
    MadeFrom (database_path (codes "/srv") (codes "a")) blank_queue tt (codes "a") no_queues
    × (is_some (get_queue (codes "a") started_again) ≡ true)
init_list-create_queue_example =
    init_list-create_queue blank_queue tt (codes "/srv") (codes "a") no_queues [] [] (some tt)
      no_queues started_again refl refl ((λ e. cc e), tt) starts_again
