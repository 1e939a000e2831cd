-- ===== src/Cli/Queue.antt =====
-- controller/cli/queue.cpp: the commands inside a queue. A result `ok` is the exit code 0, and `err 1`
-- the exit code 1.
use simple_task_queue.Common.{
  is_empty, ◌&&◌, ℕ, Bool, true, false, ◌==◌, if◌then◌else◌, Option, none, some, List, [], ◌∷◌,
  ◌++◌, Str, codes, str_eq, String, ℤ, to_int32,
}
use simple_task_queue.Task.{Task, empty_task}
use simple_task_queue.Exec.{Result, ok, err, hang, Exec, pure, fail, ◌>>=◌, ◌>>◌}
use simple_task_queue.Cli.Args.{tokens}
use simple_task_queue.Cli.{
  IQueue, Said, text, number, line, task, Session, Parser, AddOpts, say, on_world, asking,
  attempting, refuse, with_options, without_options,
}

-- The values of the option `mode`.
abbrev pending_mode : ℕ
pending_mode = 1

abbrev finished_mode : ℕ
finished_mode = 2

abbrev pub is_nil : List Str → Bool
is_nil [] = true
is_nil (x ∷ xs) = false

abbrev queue_help : Said
queue_help =
    text
      "Vaild commands: list details clear remove current add isRunning start stop output help exit"

abbrev added_args : Option (List Str) → List Str
added_args none = []
added_args (some args) = args

abbrev pub new_task : AddOpts → Str → Task
new_task o exec = record empty_task {
  work_dir = o.work_dir;
  exec_name = exec;
  args = added_args o.args;
}

abbrev shown_bool : Bool → String
shown_bool true = "ture"
shown_bool false = "false"

module _ {W : Type 0} where
  -- The exit code of a command.
  abbrev pub coded : Result (Unit {0}) × Session W → Result ℕ × Session W
  coded (ok a, s) = (ok 0, s)
  coded (err code, s) = (ok code, s)
  coded (hang, s) = (hang, s)

  unfoldable pub print_ids : List ℤ → Exec (Session W) (Unit {0})
  print_ids [] = pure tt
  print_ids (id ∷ ids) = say (number id) >> print_ids ids

  unfoldable pub print_lines : List Str → Exec (Session W) (Unit {0})
  print_lines [] = pure tt
  print_lines (l ∷ ls) = say (line l) >> print_lines ls

  -- printList, behind a list that was read.
  unfoldable pub print_list : String → List ℤ → Exec (Session W) (Unit {0})
  unfolding print_ids
  print_list empty [] = say (text "") >> say (text empty)
  print_list empty (id ∷ ids) = say (text "") >> print_ids (id ∷ ids)

  -- `println("Fail to remove task: {}", id)`
  abbrev pub noted : ℤ → Result (Unit {0}) × Session W → Result (Unit {0}) × Session W
  noted id (ok a, s) = (ok a, s)
  noted id (err code, s) =
      (ok tt, record s { printed = s.printed ++ (text "Fail to remove task: " ∷ number id ∷ []) })
  noted id (hang, s) = (hang, s)

  abbrev pub going : Result ℕ × Session W → Result (Option ℕ) × Session W
  going (ok ret, s) = (ok (some ret), s)
  going (err code, s) = (err code, s)
  going (hang, s) = (hang, s)

  module _ (q : IQueue W) (p : Parser) where
    unfoldable pub list_in : ℕ → Exec (Session W) (Unit {0})
    unfolding print_list
    list_in mode =
        if mode == pending_mode
        then (do
          say (text "listing pending list...")
          out ← attempting "Fail to list tasks" q.list_pending
          print_list "pending list is empty" out)
        else if mode == finished_mode
        then (do
          say (text "listing finished list...")
          out ← attempting "Fail to list tasks" q.list_finished
          print_list "finished list is empty" out)
        else refuse

    unfoldable pub cli_list : List Str → Exec (Session W) (Unit {0})
    unfolding list_in
    cli_list = with_options p.mode list_in

    unfoldable pub details_in : ℕ → ℤ → Exec (Session W) (Unit {0})
    details_in mode id =
        if mode == pending_mode
        then (do
          say (text "pending task details...")
          out ← attempting "Fail to get task details" (q.pending_details (to_int32 id) empty_task)
          say (task out))
        else if mode == finished_mode
        then (do
          say (text "finished task details...")
          out ← attempting "Fail to get task details" (q.finished_details (to_int32 id) empty_task)
          say (task out))
        else refuse

    unfoldable pub cli_details : List Str → Exec (Session W) (Unit {0})
    unfolding details_in
    cli_details = with_options p.mode_and_id (λ o. details_in o.0 o.1)

    unfoldable pub clear_in : ℕ → Exec (Session W) (Unit {0})
    clear_in mode =
        if mode == pending_mode
        then attempting "Fail to clear tasks" q.clear_pending >> say (text "done")
        else if mode == finished_mode
        then attempting "Fail to clear tasks" q.clear_finished >> say (text "done")
        else refuse

    unfoldable pub cli_clear : List Str → Exec (Session W) (Unit {0})
    unfolding clear_in
    cli_clear = with_options p.mode clear_in

    unfoldable pub cli_current : List Str → Exec (Session W) (Unit {0})
    cli_current = without_options p.only_help (λ _. do
      out ← attempting "Fail to get current task" (q.current_task empty_task)
      say (task out))

    unfoldable pub add_with : AddOpts → Option Str → Exec (Session W) (Unit {0})
    add_with o none = say (text "No file to execute") >> fail 1
    add_with o (some exec) =
        attempting "Fail to add task" (q.add_task (new_task o exec)) >>= λ _. say (text "done")

    unfoldable pub cli_add : List Str → Exec (Session W) (Unit {0})
    unfolding add_with
    cli_add = with_options p.add (λ o. add_with o o.exec)

    unfoldable pub remove_all : List ℤ → Exec (Session W) (Unit {0})
    remove_all [] = pure tt
    remove_all (id ∷ ids) = (λ s. noted id (on_world (q.remove_task id) s)) >> remove_all ids

    unfoldable pub remove_in : Option (List ℤ) → Exec (Session W) (Unit {0})
    unfolding remove_all
    remove_in none = refuse
    remove_in (some ids) = remove_all ids >> say (text "done")

    unfoldable pub cli_remove : List Str → Exec (Session W) (Unit {0})
    unfolding remove_in
    cli_remove = with_options p.remove remove_in

    unfoldable pub cli_is_running : List Str → Exec (Session W) (Unit {0})
    cli_is_running =
        without_options p.only_help (λ _. do b ← asking q.is_running; say (text (shown_bool b)))

    unfoldable pub cli_start : List Str → Exec (Session W) (Unit {0})
    cli_start =
        without_options p.only_help
          (λ _. attempting "Fail to start the queue" q.start >> say (text "done"))

    unfoldable pub cli_stop : List Str → Exec (Session W) (Unit {0})
    cli_stop =
        without_options p.only_help (λ _. do _ ← asking (λ w. (tt, q.stop w)); say (text "done"))

    unfoldable pub cli_output : List Str → Exec (Session W) (Unit {0})
    unfolding print_lines
    cli_output =
        without_options p.only_help (λ _. do out ← asking q.read_current_output; print_lines out)

    -- m_funcs: the command of a name.
    unfoldable pub queue_command : Str → Option (List Str → Exec (Session W) (Unit {0}))
    unfolding cli_list cli_details cli_clear cli_remove cli_current cli_add cli_is_running cli_start
        cli_stop cli_output
    queue_command name =
        if str_eq name (codes "list")
        then some cli_list
        else if str_eq name (codes "details")
        then some cli_details
        else if str_eq name (codes "clear")
        then some cli_clear
        else if str_eq name (codes "remove")
        then some cli_remove
        else if str_eq name (codes "current")
        then some cli_current
        else if str_eq name (codes "add")
        then some cli_add
        else if str_eq name (codes "isRunning")
        then some cli_is_running
        else if str_eq name (codes "start")
        then some cli_start
        else if str_eq name (codes "stop")
        then some cli_stop
        else if str_eq name (codes "output")
        then some cli_output
        else none

    -- An entry that is not there is an empty function, whose call throws.
    unfoldable pub called_or_invalid :
        Str → List Str → Option (List Str → Exec (Session W) (Unit {0})) → Exec (Session W) ℕ
    called_or_invalid name args none = do
      say (text "Invalid command: ")
      say (line name)
      say (text "Please type \"help\" for more info")
      pure 1
    called_or_invalid name args (some f) = λ s. coded (f args s)

    -- One command of Queue::run: what `ret` is then, or `none` where the loop is left.
    unfoldable pub queue_round : List Str → Exec (Session W) (Option ℕ)
    unfolding queue_command called_or_invalid
    queue_round [] s = (ok (some 1), s)
    queue_round (name ∷ more) s =
        if is_nil more && str_eq name (codes "help")
        then (say queue_help >> pure (some 0)) s
        else if is_nil more && str_eq name (codes "exit")
        then (ok none, s)
        else going (called_or_invalid name (name ∷ more) (queue_command name) s)

    -- Queue::run over the lines that are typed, the empty ones skipped: the exit code, and the lines that
    -- are left. Where none is left the model stops.
    unfoldable pub run_queue : ℕ → List Str → Exec (Session W) (ℕ × List Str)
    unfolding queue_round
    run_queue ret [] = pure (ret, [])
    run_queue ret (l ∷ ls) =
        let next = run_queue ret ls in
        if is_empty l
        then next
        else queue_round (tokens l) >>= λ r. elim r [
          | none ↦ pure (ret, ls)
          | some ret' ↦ run_queue ret' ls
        ]
