-- ===== src/Cli.antt =====
-- controller/cli: the terminal client. What it uses of the model is an interface over the state `W` of
-- all that lies behind it; the option parser cxxopts is a parameter.
pub mod Args
pub mod Queue
pub mod QueueList
pub mod Main
pub mod Remote
pub mod Answers
pub mod Commands
pub mod Rounds
pub mod MainRounds
pub mod RemoteAnswers
pub mod Start
pub mod Examples
use simple_task_queue.Common.{
  ℕ, ltb, ◌==◌, if◌then◌else◌, Bool, Option, List, [], ◌∷◌, ◌++◌, Str, String, ℤ, length,
}
use simple_task_queue.Task.{Task}
use simple_task_queue.Exec.{Result, ok, err, hang, Exec, pure, fail, ◌>>=◌, ◌>>◌}

-- model/dao/iqueue.hpp. A task that a method writes to is an argument, and what it is then a result.
pub record IQueue (W : Type 0) : Type 0 where
  pub list_pending : Exec W (List ℤ)
  pub list_finished : Exec W (List ℤ)
  pub pending_details : ℤ → Task → Exec W Task
  pub finished_details : ℤ → Task → Exec W Task
  pub clear_pending : Exec W (Unit {0})
  pub clear_finished : Exec W (Unit {0})
  pub current_task : Task → Exec W Task
  pub add_task : Task → Exec W Task
  pub remove_task : ℤ → Exec W (Unit {0})
  pub is_running : W → Bool × W
  pub read_current_output : W → List Str × W
  pub start : Exec W (Unit {0})
  pub stop : W → W

-- model/dao/iqueuelist.hpp
pub record IQueueList (W : Type 0) : Type 0 where
  pub create_queue : Str → Exec W (Unit {0})
  pub list_queue : Exec W (List Str)
  pub delete_queue : Str → Exec W (Unit {0})
  pub rename_queue : Str → Str → Exec W (Unit {0})
  pub get_queue : Str → W → Option (IQueue W) × W

-- What stands on the terminal.
pub data Said : Type 0 where
  help : Said
  text : String → Said
  line : Str → Said
  number : ℤ → Said
  task : Task → Said

-- The world behind the interface, and what was printed.
pub record Session (W : Type 0) : Type 0 where
  pub world : W
  pub printed : List Said

-- What cxxopts makes of a command: an exception with its text, the option -h, or the other options.
pub data Parsed (A : Type 0) : Type 0 where
  threw : Str → Parsed A
  helped : Parsed A
  parsed : A → Parsed A

-- -w, which has a default; -e and -a, which have none.
pub record AddOpts : Type 0 where
  pub work_dir : Str
  pub exec : Option Str
  pub args : Option (List Str)

pub record RenameOpts : Type 0 where
  pub source : Option Str
  pub target : Option Str

-- One parser for each set of options that the source declares, over the arguments of a command; and
-- whether getcwd gives the default of -w when the options are declared.
pub record Parser : Type 0 where
  pub has_cwd : Bool
  pub mode : List Str → Parsed ℕ
  pub mode_and_id : List Str → Parsed (ℕ × ℤ)
  pub add : List Str → Parsed AddOpts
  pub remove : List Str → Parsed (Option (List ℤ))
  pub name : List Str → Parsed (Option Str)
  pub rename : List Str → Parsed RenameOpts
  pub only_help : List Str → Parsed (Unit {0})

module _ {W : Type 0} where
  abbrev pub say : Said → Exec (Session W) (Unit {0})
  say x s = (ok tt, record s { printed = s.printed ++ x ∷ [] })

  -- A call of the interface.
  abbrev pub back : {A : Type 0} → Session W → Result A × W → Result A × Session W
  back s (r, w) = (r, record s { world = w })

  abbrev pub on_world : {A : Type 0} → Exec W A → Exec (Session W) A
  on_world m s = back s (m s.world)

  abbrev pub got : {A : Type 0} → Session W → A × W → Result A × Session W
  got s (a, w) = (ok a, record s { world = w })

  abbrev pub asking : {A : Type 0} → (W → A × W) → Exec (Session W) A
  asking f s = got s (f s.world)

  -- `if (call) { println(msg); return 1; }`
  abbrev pub or_say : {A : Type 0} → String → Result A × Session W → Result A × Session W
  or_say msg (ok a, s) = (ok a, s)
  or_say msg (err code, s) = (err 1, record s { printed = s.printed ++ text msg ∷ [] })
  or_say msg (hang, s) = (hang, s)

  abbrev pub attempting : {A : Type 0} → String → Exec W A → Exec (Session W) A
  attempting msg m s = or_say msg (on_world m s)

  -- Print the help and return an exit code: `pure tt` is 0, `fail 1` is 1.
  abbrev pub refuse : Exec (Session W) (Unit {0})
  refuse = say help >> fail 1

  abbrev pub on_parsed :
      {A : Type 0} → (A → Exec (Session W) (Unit {0})) → Parsed A → Exec (Session W) (Unit {0})
  on_parsed f (threw what) = say (line what) >> fail 1
  on_parsed f helped = say help
  on_parsed f (parsed a) = f a

  -- How a command with options begins.
  abbrev pub with_options :
      {A : Type 0}
      → (List Str → Parsed A)
      → (A → Exec (Session W) (Unit {0}))
      → List Str
      → Exec (Session W) (Unit {0})
  with_options parse f args = if length args == 1 then say help else on_parsed f (parse args)

  -- How a command with no option but -h begins.
  abbrev pub without_options :
      {A : Type 0}
      → (List Str → Parsed A)
      → (A → Exec (Session W) (Unit {0}))
      → List Str
      → Exec (Session W) (Unit {0})
  without_options parse f args = if ltb 2 (length args) then refuse else on_parsed f (parse args)
