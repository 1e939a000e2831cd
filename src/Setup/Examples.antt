-- ===== src/Setup/Examples.antt =====
-- Addresses, and the start of a server on a disk that is a list of directories.
use simple_task_queue.Common.{
  ◌≡◌, ◌⊎◌, ◌↔◌, refl, Bool, true, false, if◌then◌else◌, some, List, [], ◌∷◌, ◌++◌, Option, Str,
  codes, str_eq, str_eq_refl, pos,
}
use simple_task_queue.Exec.{Ends}
use simple_task_queue.Task.{empty_task}
use simple_task_queue.Queue.{Queue}
use simple_task_queue.Queue.Examples.{instant}
use simple_task_queue.Queue.SchemaExamples.{no_tables, closed_token}
use simple_task_queue.QueueList.{FileKind, regular_file}
use simple_task_queue.Setup.Server.{init_server}
use simple_task_queue.Setup.Starts.{HasAddress, IsServed, init_server-IsServed}
use simple_task_queue.Cli.{parsed}
use simple_task_queue.Setup.Address.{verify_ip, IsAddress, verify_ip-IsAddress}
use simple_task_queue.Setup.Regex.{regex_match}
use simple_task_queue.Setup.Dirs.{Files, Creates}
use simple_task_queue.Setup.Config.{ServerConfig, Sources, Boot, parse_config}
use simple_task_queue.Setup.ConfigLaws.{IsUsable, parse_config-IsUsable}

verify_ip-IsAddress_example : (verify_ip (codes "127.0.0.01") ≡ 0) ↔ IsAddress (codes "127.0.0.01")
verify_ip-IsAddress_example = verify_ip-IsAddress (codes "127.0.0.01")

has_dir : Str → List Str → Bool
has_dir path [] = false
has_dir path (d ∷ ds) = if str_eq d path then true else has_dir path ds

abbrev tree : Files
tree = record {
  Disk = List Str;
  exists = has_dir;
  is_directory = has_dir;
  is_regular_file = λ path d. true;
  create_directory = λ path d. (true, path ∷ d);
}

tree_creates : Creates tree
unfolding has_dir
tree_creates path d h = rw (str_eq_refl path) refl

abbrev server_config : ServerConfig
server_config = record {
  db_path = [];
  log_path = [];
  listen_port = 12345;
  listen_ip = codes "127.0.0.1";
  log_level = pos 2;
}

-- The arguments name a log path and a configuration file, and the file another log path.
abbrev sources : Sources tree
sources = record {
  cwd = some (codes "/srv");
  options =
      λ argv cwd config. (parsed (codes "/etc/ff"), record config { log_path = codes "/log" });
  load_file = λ path d. some (record {
    db_path = some (codes "/srv");
    log_path = some (codes "/var/log");
    port = some 80;
    ip = some (codes "10.0.0.1");
    log_level = some (pos 2);
  });
}

abbrev boot : Boot tree
boot = record { config = server_config; disk = codes "/etc/ff" ∷ [] }

parse_config-IsUsable_example :
    Ends
      (λ c b. (c ≡ 1) ⊎ (c ≡ 2))
      (λ _ b. IsUsable b)
      (parse_config sources (codes "server" ∷ codes "-c" ∷ codes "/etc/ff" ∷ []) boot)
parse_config-IsUsable_example =
    parse_config-IsUsable tree_creates sources (codes "server" ∷ codes "-c" ∷ codes "/etc/ff" ∷ [])
      boot refl

abbrev blank_queue : Queue no_tables instant
blank_queue = record {
  token = closed_token;
  process = tt;
  current_task = empty_task;
  is_running = false;
  start_flag = false;
}

-- Each directory holds a database and a text.
abbrev files_of : Str → List Str → List (FileKind × Str × Option (Unit {0}))
files_of base d =
    (regular_file, base ++ codes "/a.db", some tt)
    ∷ ((regular_file, base ++ codes "/notes.txt", some tt) ∷ [])

boot-HasAddress : HasAddress boot
unfolding verify_ip regex_match
boot-HasAddress = refl

init_server-IsServed_example :
    Ends
      (λ c _. (c ≡ 1) ⊎ (c ≡ 2))
      (λ l b. IsServed tree files_of l b × HasAddress b)
      (init_server blank_queue files_of
        (λ path. true)
        sources
        (codes "server" ∷ codes "-c" ∷ codes "/etc/ff" ∷ [])
        boot)
init_server-IsServed_example =
    init_server-IsServed tree files_of blank_queue tree_creates (λ path. true) sources
      (codes "server" ∷ codes "-c" ∷ codes "/etc/ff" ∷ []) boot boot-HasAddress
