-- ===== src/Cli/QueueList.antt =====
-- controller/cli/queuelist.cpp: the commands outside of a queue, and the way into one.
use simple_task_queue.Common.{
  ℕ, zero, suc, ltb, ◌&&◌, if◌then◌else◌, Option, none, some, List, [], ◌∷◌, Str, codes, str_eq,
  is_empty, length,
}
use simple_task_queue.Exec.{Result, ok, err, hang, Exec, pure, ◌>>=◌, ◌>>◌}
use simple_task_queue.Cli.Args.{tokens}
use simple_task_queue.Cli.{
  IQueue, IQueueList, Said, text, Session, Parser, say, attempting, asking, refuse, with_options,
  on_parsed,
}
use simple_task_queue.Cli.Queue.{is_nil, coded, print_lines, run_queue}

abbrev list_help : Said
list_help = text "Valid command: create delete list rename help exit"

module _ {W : Type 0} where
  -- `if (!result.count(...))`, and the test for an empty value.
  abbrev pub given : Option Str → (Str → Exec (Session W) (Unit {0})) → Exec (Session W) (Unit {0})
  given none f = refuse
  given (some value) f = if is_empty value then refuse else f value

  abbrev pub with_lines : List Str → Result ℕ × Session W → Result (ℕ × List Str) × Session W
  with_lines ls (ok ret, s) = (ok (ret, ls), s)
  with_lines ls (err code, s) = (err code, s)
  with_lines ls (hang, s) = (hang, s)

  abbrev pub going_on :
      Result (ℕ × List Str) × Session W → Result (Option (ℕ × List Str)) × Session W
  going_on (ok r, s) = (ok (some r), s)
  going_on (err code, s) = (err code, s)
  going_on (hang, s) = (hang, s)

  abbrev out_of_rounds : {A : Type 0} → Exec (Session W) A
  out_of_rounds s = (hang, s)

  module _ (l : IQueueList W) (p : Parser) where
    unfoldable pub cli_create : List Str → Exec (Session W) (Unit {0})
    cli_create = with_options p.name (λ o.
        given o
          (λ name. attempting "Fail to create queue" (l.create_queue name) >> say (text "done")))

    unfoldable pub cli_delete : List Str → Exec (Session W) (Unit {0})
    cli_delete = with_options p.name (λ o.
        given o
          (λ name. attempting "Fail to delete queue" (l.delete_queue name) >> say (text "done")))

    unfoldable pub cli_list_queue : List Str → Exec (Session W) (Unit {0})
    unfolding print_lines
    cli_list_queue args =
        if ltb 1 (length args)
        then refuse
        else on_parsed
            (λ _. do
              out ← attempting "Fail to list queue" l.list_queue
              say (text "")
              print_lines out)
            (p.only_help args)

    unfoldable pub cli_rename : List Str → Exec (Session W) (Unit {0})
    cli_rename = with_options p.rename (λ o. given o.source (λ source. given o.target (λ target.
        attempting "Fail to rename queue" (l.rename_queue source target) >> say (text "done"))))

    -- m_funcs
    unfoldable pub list_command : Str → Option (List Str → Exec (Session W) (Unit {0}))
    unfolding cli_create cli_delete cli_list_queue cli_rename
    list_command name =
        if str_eq name (codes "create")
        then some cli_create
        else if str_eq name (codes "delete")
        then some cli_delete
        else if str_eq name (codes "list")
        then some cli_list_queue
        else if str_eq name (codes "rename")
        then some cli_rename
        else none

    -- enter(), with the lines that come next: those that are left when the queue is left.
    unfoldable pub entered : List Str → Option (IQueue W) → Exec (Session W) (ℕ × List Str)
    unfolding run_queue
    entered ls none = say (text "Fail to enter the queue") >> pure (1, ls)
    entered ls (some q) =
        if p.has_cwd
        then run_queue q p 0 ls
        else (say (text "Fail to enter the queue") >> pure (1, ls))

    -- A name without a command is the name of a queue.
    unfoldable pub called_or_entered :
        Str
        → List Str
        → List Str
        → Option (List Str → Exec (Session W) (Unit {0}))
        → Exec (Session W) (ℕ × List Str)
    unfolding entered
    called_or_entered name args ls none = asking (l.get_queue name) >>= entered ls
    called_or_entered name args ls (some f) = λ s. with_lines ls (coded (f args s))

    unfoldable pub list_round : List Str → List Str → Exec (Session W) (Option (ℕ × List Str))
    unfolding list_command called_or_entered
    list_round [] ls s = (ok (some (1, ls)), s)
    list_round (name ∷ more) ls s =
        if is_nil more && str_eq name (codes "help")
        then (say list_help >> pure (some (0, ls))) s
        else if is_nil more && str_eq name (codes "exit")
        then (ok none, s)
        else going_on (called_or_entered name (name ∷ more) ls (list_command name) s)

    -- QueueList::run, with as many rounds as are given; a round takes at least one line. Where no line is
    -- left the model stops.
    unfoldable pub run_list : ℕ → ℕ → List Str → Exec (Session W) (ℕ × List Str)
    unfolding list_round
    run_list zero ret ls = out_of_rounds
    run_list (suc rounds) ret [] = pure (ret, [])
    run_list (suc rounds) ret (l ∷ ls) =
        let next = run_list rounds ret ls in
        if is_empty l
        then next
        else list_round (tokens l) ls >>= λ r. elim r [
          | none ↦ pure (ret, ls)
          | some (ret', rest) ↦ run_list rounds ret' rest
        ]
