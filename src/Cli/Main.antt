-- ===== src/Cli/Main.antt =====
-- controller/cli/main.cpp: the outermost commands.
use simple_task_queue.Common.{
  ℕ, zero, suc, Bool, true, false, ltb, ◌==◌, if◌then◌else◌, Option, none, some, List, [], ◌∷◌,
  ◌++◌, Str, codes, is_empty, ℤ, pos, length,
}
use simple_task_queue.Exec.{Result, ok, err, hang, Exec, pure, fail, ◌>>=◌, ◌>>◌}
use simple_task_queue.Args.{starts_with}
use simple_task_queue.Cli.Args.{tokens}
use simple_task_queue.Cli.{
  IQueueList, help, text, line, number, Session, Parser, Parsed, threw, helped, parsed, say,
}
use simple_task_queue.Cli.QueueList.{run_list}

-- controller/cli/config.hpp, as far as the commands read and write it.
pub record Config : Type 0 where
  pub backend : ℕ
  pub address : Str
  pub port : ℕ
  pub auto_connect : Bool

abbrev pub backend_grpc : ℕ
backend_grpc = 0

abbrev pub backend_sqlite : ℕ
backend_sqlite = 1

-- grpcInit and sqliteInit of controller/global/global.cpp; `none` is a failure.
pub record Backends (W : Type 0) : Type 0 where
  pub grpc : Str → ℤ → W → Option (IQueueList W) × W
  pub sqlite : Str → W → Option (IQueueList W) × W

-- The options of `print`, whether -i was given, and those of `modify`, which cxxopts writes to the
-- configuration itself, also on the way to an exception or to the help.
pub record MainParser : Type 0 where
  pub print : List Str → Parsed Bool
  pub modify : List Str → Config → Parsed (Unit {0}) × Config

-- `!memcmp(argv, key, n)`, where the n bytes of the key may be its terminating zero too.
abbrev pub same_bytes : Str → Str → Bool
same_bytes key arg = starts_with key (arg ++ 0 ∷ [])

-- What the commands change: the configuration, and the session.
pub record MainState (W : Type 0) : Type 0 where
  pub config : Config
  pub session : Session W

-- A backend past the last one becomes SQLite.
abbrev valid_backend : Config → Config
valid_backend config =
    if ltb backend_sqlite config.backend then record config { backend = backend_sqlite } else config

module _ {W : Type 0} where
  -- QueueList::init up to the options.
  unfoldable pub init_queue_list : Backends W → Config → W → Option (IQueueList W) × W
  init_queue_list b config w =
      if config.backend == backend_grpc
      then b.grpc config.address (pos config.port) w
      else if config.backend == backend_sqlite
      then b.sqlite config.address w
      else (none, w)

  abbrev pub told_session : {A : Type 0} → Config → Result A × Session W → Result A × MainState W
  told_session config (r, s) = (r, record { config = config; session = s })

  abbrev on_session : {A : Type 0} → Exec (Session W) A → Exec (MainState W) A
  on_session m st = told_session st.config (m st.session)

  abbrev pub coded_main : Result (Unit {0}) × MainState W → Result ℕ × MainState W
  coded_main (ok a, st) = (ok 0, st)
  coded_main (err code, st) = (ok code, st)
  coded_main (hang, st) = (hang, st)

  -- Without the three lines that the build fills in.
  unfoldable pub print_info : Config → Exec (Session W) (Unit {0})
  print_info config = do
    say (text "FFCLI version info:")
    say (text "")
    say (text "target host: ")
    say (line config.address)
    say (text "target port: ")
    say (number (pos config.port))

  unfoldable pub printed_info : Config → Parsed Bool → Exec (Session W) (Unit {0})
  unfolding print_info
  printed_info config (threw what) = say (line what) >> fail 1
  printed_info config helped = say help
  printed_info config (parsed true) = print_info config
  printed_info config (parsed false) = pure tt

  unfoldable pub modified : Session W → Parsed (Unit {0}) × Config → Result (Unit {0}) × MainState W
  modified s (threw what, config) = told_session config ((say (line what) >> fail 1) s)
  modified s (helped, config) = told_session config (say help s)
  modified s (parsed u, config) = told_session (valid_backend config) (say (text "done") s)

  abbrev pub left :
      MainState W → Result (ℕ × List Str) × Session W → Result (ℕ × List Str) × MainState W
  left st (r, s) = (r, record st { session = s })

  abbrev pub and_lines :
      List Str → Result ℕ × MainState W → Result (Option (ℕ × List Str)) × MainState W
  and_lines ls (ok ret, st) = (ok (some (ret, ls)), st)
  and_lines ls (err code, st) = (err code, st)
  and_lines ls (hang, st) = (hang, st)

  abbrev pub and_go_on :
      Result (ℕ × List Str) × MainState W → Result (Option (ℕ × List Str)) × MainState W
  and_go_on (ok r, st) = (ok (some r), st)
  and_go_on (err code, st) = (err code, st)
  and_go_on (hang, st) = (hang, st)

  module _ (b : Backends W) (p : Parser) (m : MainParser) where
    unfoldable pub cli_print : List Str → Exec (MainState W) (Unit {0})
    unfolding printed_info
    cli_print args st =
        on_session (if length args == 1 then say help else printed_info st.config (m.print args)) st

    unfoldable pub cli_modify : List Str → Exec (MainState W) (Unit {0})
    unfolding modified
    cli_modify args st =
        if length args == 1
        then on_session (say help) st
        else modified st.session (m.modify args st.config)

    unfoldable pub connected_to :
        List Str → MainState W → Option (IQueueList W) × W → Result (ℕ × List Str) × MainState W
    unfolding run_list
    connected_to ls st (none, w) =
        left st (
          (say (text "Fail to connect to server") >> pure (1, ls))
            (record st.session { world = w }))
    connected_to ls st (some l, w) =
        left st (run_list l p (suc (length ls)) 0 ls (record st.session { world = w }))

    -- connect(), with the lines that come next.
    unfoldable pub cli_connect : List Str → List Str → Exec (MainState W) (ℕ × List Str)
    unfolding connected_to init_queue_list
    cli_connect args ls st =
        if ltb 1 (length args)
        then on_session (say (text "Invalid command") >> pure (1, ls)) st
        else connected_to ls st (init_queue_list b st.config st.session.world)

    -- One command of Main::run, `none` where the loop is left. Of `modify` and `connect` the zero at
    -- the end is compared too, of the others only the letters.
    unfoldable pub main_round : List Str → List Str → Exec (MainState W) (Option (ℕ × List Str))
    unfolding starts_with cli_print cli_modify cli_connect
    main_round [] ls st = (ok (some (1, ls)), st)
    main_round (name ∷ more) ls st =
        if same_bytes (codes "print") name
        then and_lines ls (coded_main (cli_print (name ∷ more) st))
        else if same_bytes (codes "modify" ++ 0 ∷ []) name
        then and_lines ls (coded_main (cli_modify (name ∷ more) st))
        else if same_bytes (codes "connect" ++ 0 ∷ []) name
        then and_go_on (cli_connect (name ∷ more) ls st)
        else if same_bytes (codes "exit") name
        then on_session (say (text "Good bye!") >> pure none) st
        else if same_bytes (codes "help") name
        then on_session
            (say (text "Valid command: print, modify, connect, help, exit") >> pure (some (0, ls)))
            st
        else on_session
            (do
              say (text "Invalid command: ")
              say (line name)
              say (text "Please type \"help\" for more info")
              pure (some (1, ls)))
            st

    -- Where no line is left the model stops, with the exit code that there is then: getArgs waits for the
    -- next line, for ever where the input has ended.
    unfoldable pub main_loop_of : ℕ → ℕ → List Str → Exec (MainState W) (ℕ × List Str)
    unfolding main_round
    main_loop_of zero ret ls st = (hang, st)
    main_loop_of (suc rounds) ret [] st = (ok (ret, []), st)
    main_loop_of (suc rounds) ret (l ∷ ls) st =
        let next = main_loop_of rounds ret ls st in
        if is_empty l
        then next
        else (main_round (tokens l) ls >>= λ r. elim r [
          | none ↦ pure (ret, ls)
          | some (ret', rest) ↦ main_loop_of rounds ret' rest
        ])
            st

    -- Main::run, over the lines that are typed to the end of the program.
    unfoldable pub run_main : List Str → Exec (MainState W) (ℕ × List Str)
    unfolding main_loop_of cli_connect
    run_main ls st =
        if st.config.auto_connect
        then (cli_connect [] ls >>= λ r. main_loop_of (suc (length r.1)) r.0 r.1) st
        else main_loop_of (suc (length ls)) 0 ls st
