-- ===== src/Cli/Examples.antt =====
-- The terminal client over a channel that loses nothing, to a server with two queues in memory.
use simple_task_queue.Common.{
  ◌≡◌, ◌⊎◌, refl, true, none, some, List, [], ◌∷◌, Str, codes, ℤ, pos, arith,
}
use simple_task_queue.ErrMsg.{os_error}
use simple_task_queue.Exec.{Ends}
use simple_task_queue.Queue.Sample.{memory_contract}
use simple_task_queue.Queue.Examples.{started}
use simple_task_queue.Queue.AddLaws.{Added, NotAdded}
use simple_task_queue.Queue.Methods.{tables}
use simple_task_queue.QueueList.Examples.{two_queues}
use simple_task_queue.Client.Examples.{direct, direct_carries, queue_a, first_queue}
use simple_task_queue.Cli.{Session, Parser, parsed, helped, AddOpts, text}
use simple_task_queue.Cli.Queue.{cli_add, new_task}
use simple_task_queue.Cli.Main.{MainState, Backends, MainParser}
use simple_task_queue.Client.GrpcQueueList.{GrpcQueueList}
use simple_task_queue.Cli.Remote.{remote_queue, remote_list, OnServer, cli_add-OnServer}

abbrev ls_opts : AddOpts
ls_opts = record {
  work_dir = codes "/";
  exec = some (codes "/bin/ls");
  args = some (codes "-l" ∷ []);
}

-- A parser that knows one command.
abbrev parser : Parser
parser = record {
  has_cwd = true;
  mode = λ args. parsed 1;
  mode_and_id = λ args. parsed (1, pos 0);
  add = λ args. parsed ls_opts;
  remove = λ args. parsed none;
  name = λ args. parsed none;
  rename = λ args. parsed (record { source = none; target = none });
  only_help = λ args. helped;
}

abbrev session : Session direct.Net
session = record { world = two_queues; printed = [] }

abbrev add_line : List Str
add_line = codes "add" ∷ codes "-e" ∷ codes "/bin/ls" ∷ codes "-a" ∷ codes "-l" ∷ []

cli_add-OnServer_example :
    Ends
      (λ c t.
        (c ≡ 1)
        × (⊥
            ⊎ OnServer memory_contract direct_carries
                (codes "a")
                (λ q'.
                  NotAdded ⊥ (tables memory_contract started) os_error (tables memory_contract q'))
                t.world)
        × (t.printed ≡ text "Fail to add task" ∷ []))
      (λ _ t.
        ((id : ℤ) × OnServer memory_contract direct_carries
            (codes "a")
            (λ q'.
              Added
                (new_task ls_opts (codes "/bin/ls"))
                (tables memory_contract started)
                id
                (tables memory_contract q'))
            t.world)
        × (t.printed ≡ text "done" ∷ []))
      (cli_add (remote_queue queue_a) parser add_line session)
cli_add-OnServer_example =
    cli_add-OnServer memory_contract direct_carries queue_a parser add_line ls_opts
      (codes "/bin/ls") session started refl refl refl first_queue (omega arith)

abbrev main_state : MainState direct.Net
main_state = record {
  config = record { backend = 0; address = codes "127.0.0.1"; port = 12345; auto_connect = true };
  session = session;
}

abbrev connection : GrpcQueueList direct
connection = record { stub = tt; token = tt }

abbrev backends : Backends direct.Net
backends = record {
  grpc = λ target port w. (some (remote_list connection), w);
  sqlite = λ target w. (none, w);
}

abbrev main_parser : MainParser
main_parser = record { print = λ args. parsed true; modify = λ args config. (parsed tt, config) }

abbrev typed : List Str
typed =
    codes "connect"
    ∷ codes "a"
    ∷ codes "add -e /bin/ls -a -l"
    ∷ codes "exit"
    ∷ codes "exit"
    ∷ codes "exit"
    ∷ []
