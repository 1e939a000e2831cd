-- ===== src/Cli/Start.antt =====
-- controller/cli/main.cpp, init and parseArgs, and climain.cpp: the start of the terminal client.
use simple_task_queue.Common.{ℕ, zero, suc, Bool, if◌then◌else◌, List, Str}
use simple_task_queue.Exec.{Result, ok, err, hang}
use simple_task_queue.Setup.Server.{spdlog_init}
use simple_task_queue.Cli.{Parsed, threw, helped, parsed, Parser}
use simple_task_queue.Cli.Main.{Config, MainState, Backends, MainParser, run_main}

-- What stands outside: isAdmin, whether spdlog can write to a file, and what cxxopts makes of the
-- arguments, with the file for the log; -v is taken like -h.
pub record Outside : Type 0 where
  pub is_admin : Bool
  pub opens : Str → Bool
  pub options : List Str → Config → Parsed Str × Config

-- parseArgs
abbrev parse_args : {A : Type 0} → Parsed A → ℕ
parse_args (threw what) = 1
parse_args helped = 2
parse_args (parsed a) = 0

module _ {W : Type 0} where
  unfoldable init_log : (Str → Bool) → MainState W → Parsed Str × Config → ℕ × MainState W
  unfolding spdlog_init
  init_log opens st (threw what, config) = (1, record st { config = config })
  init_log opens st (helped, config) = (2, record st { config = config })
  init_log opens st (parsed file, config) = (spdlog_init opens file, record st { config = config })

  -- Main::init up to what it sets up for the session; Args::init is init_args.
  unfoldable init_main : Outside → List Str → MainState W → ℕ × MainState W
  unfolding init_log
  init_main o argv st =
      if o.is_admin then (1, st) else init_log o.opens st (o.options argv st.config)

  abbrev exit_of : Result (ℕ × List Str) × MainState W → Result ℕ × MainState W
  exit_of (ok (ret, ls), st) = (ok ret, st)
  exit_of (err code, st) = (err code, st)
  exit_of (hang, st) = (hang, st)

  module _ (b : Backends W) (p : Parser) (m : MainParser) where
    unfoldable start_main : List Str → ℕ × MainState W → Result ℕ × MainState W
    unfolding run_main
    start_main ls (zero, st) = exit_of (run_main b p m ls st)
    start_main ls (suc (suc zero), st) = (ok 0, st)
    start_main ls (suc n, st) = (ok (suc n), st)

    -- main of climain.cpp, over the lines that are typed.
    unfoldable pub climain : Outside → List Str → List Str → MainState W → Result ℕ × MainState W
    unfolding start_main init_main
    climain o argv ls st = start_main ls (init_main o argv st)
