-- ===== src/Setup/Server.antt =====
-- controller/grpcserver/init.cpp, server.cpp and accessimpl.cpp, spdlogInit of
-- controller/global/global.cpp, and servermain.cpp: the life of the server.
use simple_task_queue.Common.{
  ℕ, zero, suc, ◌≡◌, ◌≢◌, refl, Bool, true, false, Bool-cases, inl, inr, if◌then◌else◌, Option,
  none, some, List, ◌++◌, Str, codes, is_empty,
}
use simple_task_queue.Exec.{Result, ok, err, hang, Exec, ◌>>=◌, ◌>>◌}
use simple_task_queue.Sqlite.{Sqlite}
use simple_task_queue.Process.{Process}
use simple_task_queue.Queue.{Queue}
use simple_task_queue.QueueList.{QueueList, FileKind}
use simple_task_queue.Server.{Reply, replied}
use simple_task_queue.Setup.Dirs.{Files}
use simple_task_queue.Setup.Database.{sqlite_init}
use simple_task_queue.Setup.Config.{Sources, Boot, parse_config}

-- AccessImpl::Echo
unfoldable serve_echo : Reply (Unit {0})
serve_echo = replied tt

-- `opens` says whether spdlog can write to a file.
unfoldable pub spdlog_init : (Str → Bool) → Str → ℕ
spdlog_init opens path = if is_empty path then 0 else if opens path then 0 else 1

abbrev pub log_file : Str → Str
log_file path = if is_empty path then path else path ++ codes "/STQLog.log"

module _ {F : Files} where
  -- 2 is passed on, any other code becomes 1.
  abbrev pub help_or_error : Result (Unit {0}) × Boot F → Result (Unit {0}) × Boot F
  help_or_error (ok x, b) = (ok x, b)
  help_or_error (err (suc (suc zero)), b) = (err 2, b)
  help_or_error (err code, b) = (err 1, b)
  help_or_error (hang, b) = (hang, b)

  abbrev pub put_list : {A : Type 0} → Boot F → Option A × F.Disk → Result A × Boot F
  put_list b (none, d) = (err 1, record b { disk = d })
  put_list b (some l, d) = (ok l, record b { disk = d })

  -- Behind spdlogInit.
  unfoldable pub logged : {A : Type 0} → A → ℕ → Exec (Boot F) A
  logged a zero b = (ok a, b)
  logged a (suc n) b = (err 1, b)

  module _ {S : Sqlite} {P : Process} (blank : Queue S P)
      (entries : Str → F.Disk → List (FileKind × Str × Option P.State)) (opens : Str → Bool)
      (s : Sources F) where
    unfoldable pub log_opened : QueueList S P → Exec (Boot F) (QueueList S P)
    unfolding spdlog_init logged
    log_opened l b = logged l (spdlog_init opens (log_file b.config.log_path)) b

    -- init: the list of queues that the handlers use. consoleInit does nothing but on Windows.
    unfoldable pub init_server : List Str → Exec (Boot F) (QueueList S P)
    unfolding log_opened
    init_server argv = do
      (λ b. help_or_error (parse_config s argv b))
      l ← (λ b. put_list b (sqlite_init F blank entries b.config.db_path b.disk))
      log_opened l

-- m_exitRequested: whether its value has been set.
pub record Server : Type 0 where
  pub exit_requested : Bool

abbrev new_server : Server
new_server = record { exit_requested = false }

-- Server::stop; `none` is the exception of set_value for a value that is set already.
unfoldable pub stop_server : Server → Option Server
stop_server s = if s.exit_requested then none else some (record s { exit_requested = true })

-- What becomes of the program behind init.
pub data Life : Type 0 where
  exits : ℕ → Life
  terminates waits : Life

-- The handler of a signal calls stop.
unfoldable signalled : ℕ → Server → Option Server
signalled zero s = some s
signalled (suc n) s = elim (stop_server s) [ none ↦ none | some s' ↦ signalled n s' ]

-- The destructor of the server calls stop too, and an exception of a destructor ends the program.
unfoldable destroyed : Server → Life
destroyed s = elim (stop_server s) [ none ↦ terminates | some s' ↦ exits 0 ]

abbrev after_signals : Option Server → Life
after_signals none = terminates
after_signals (some s) = if s.exit_requested then destroyed s else waits

-- main behind init, with the signals that arrive: start waits for the first. Where BuildAndStart gives a
-- null pointer, as for a port that is taken, the thread calls Wait on it.
unfoldable serve_life : Bool → ℕ → Life
unfolding signalled destroyed
serve_life false signals = terminates
serve_life true signals = after_signals (signalled signals new_server)

module _ {F : Files} {S : Sqlite} {P : Process} where
  unfoldable pub after_init :
      Bool → ℕ → Result (QueueList S P) × Boot F → Life × Option (QueueList S P)
  unfolding serve_life
  after_init built signals (ok l, b) = (serve_life built signals, some l)
  after_init built signals (err (suc (suc zero)), b) = (exits 0, none)
  after_init built signals (err code, b) = (exits 1, none)
  after_init built signals (hang, b) = (waits, none)

  -- main, with whether the user is the super user, and the list of queues that is served.
  unfoldable pub servermain :
      Bool
      → Bool
      → ℕ
      → (List Str → Exec (Boot F) (QueueList S P))
      → List Str
      → Boot F
      → Life × Option (QueueList S P)
  unfolding after_init
  servermain is_admin built signals init argv b =
      if is_admin then (exits 1, none) else after_init built signals (init argv b)

destroyed-terminates : (s : Server) → s.exit_requested ≡ true → destroyed s ≡ terminates
unfolding destroyed stop_server
destroyed-terminates s h = rw h refl

after-exits : (o : Option Server) (code : ℕ) → after_signals o ≢ exits code
after-exits none code e = cc e
after-exits (some s) code e = elim (Bool-cases s.exit_requested) [
  | inl h ↦ cc (destroyed-terminates s h)
  | inr h ↦ cc (rw h at e)
]

-- The program never ends with an exit code once it serves: the destructor sets the value a second
-- time.
serve_life-exits : (built : Bool) (signals code : ℕ) → serve_life built signals ≢ exits code
unfolding serve_life
serve_life-exits false signals code e = cc e
serve_life-exits true signals code e = after-exits (signalled signals new_server) code e
