-- ===== src/Cli/Answers.antt =====
-- controller/cli: the commands end, if the calls of the interface behind them do.
use simple_task_queue.Common.{
  ◌≡◌, ◌==◌, ltb, Bool, true, false, if◌then◌else◌, Option, none, some, List, [], ◌∷◌, Str, String,
  ℤ, length, is_empty,
}
use simple_task_queue.Task.{Task}
use simple_task_queue.Exec.{Result, ok, err, hang, Exec, continue, ◌>>=◌}
use simple_task_queue.Cli.{
  IQueue, IQueueList, Session, Parsed, threw, helped, parsed, attempting, back, or_say, say,
  with_options, without_options, on_parsed, refuse, Said,
}
use simple_task_queue.Cli.Queue.{print_ids, print_lines, print_list}
use simple_task_queue.Cli.QueueList.{given}

-- With a value or a code.
abbrev pub NoHang : {A S : Type 0} → Result A × S → Type 0
NoHang (ok a, s) = Unit {0}
NoHang (err code, s) = Unit {0}
NoHang (hang, s) = ⊥

-- The calls of a queue and of a list of queues end.
pub record Answers {W : Type 0} (q : IQueue W) : Type 0 where
  pub list_pending : (w : W) → NoHang (q.list_pending w)
  pub list_finished : (w : W) → NoHang (q.list_finished w)
  pub pending_details : (id : ℤ) (t : Task) (w : W) → NoHang (q.pending_details id t w)
  pub finished_details : (id : ℤ) (t : Task) (w : W) → NoHang (q.finished_details id t w)
  pub clear_pending : (w : W) → NoHang (q.clear_pending w)
  pub clear_finished : (w : W) → NoHang (q.clear_finished w)
  pub current_task : (t : Task) (w : W) → NoHang (q.current_task t w)
  pub add_task : (t : Task) (w : W) → NoHang (q.add_task t w)
  pub remove_task : (id : ℤ) (w : W) → NoHang (q.remove_task id w)
  pub start : (w : W) → NoHang (q.start w)

pub record ListAnswers {W : Type 0} (l : IQueueList W) : Type 0 where
  pub create_queue : (name : Str) (w : W) → NoHang (l.create_queue name w)
  pub list_queue : (w : W) → NoHang (l.list_queue w)
  pub delete_queue : (name : Str) (w : W) → NoHang (l.delete_queue name w)
  pub rename_queue : (source target : Str) (w : W) → NoHang (l.rename_queue source target w)
  pub get_queue : (name : Str) (w : W) (q : IQueue W) → (l.get_queue name w).0 ≡ some q → Answers q

module _ {W : Type 0} where
  -- A part of a command ends wherever it is run.
  abbrev pub Finishes : {A : Type 0} → Exec (Session W) A → Type 0
  Finishes m = (s : Session W) → NoHang (m s)

  pub branch-Finishes :
      {A : Type 0} (b : Bool) (x y : Exec (Session W) A)
      → Finishes x
      → Finishes y
      → Finishes (if b then x else y)
  branch-Finishes true x y h k = h
  branch-Finishes false x y h k = k

  behind_call :
      {A B : Type 0} (msg : String) (f : A → Exec (Session W) B) (s : Session W) (r : Result A × W)
      → NoHang r
      → ((a : A) → Finishes (f a))
      → NoHang (continue f (or_say msg (back s r)))
  behind_call msg f s (ok a, w) h k = k a (record s { world = w })
  behind_call msg f s (err code, w) h k = tt
  behind_call msg f s (hang, w) h k = h

  pub attempting-Finishes :
      {A B : Type 0} (msg : String) (m : Exec W A) (f : A → Exec (Session W) B)
      → ((w : W) → NoHang (m w))
      → ((a : A) → Finishes (f a))
      → Finishes (attempting msg m >>= f)
  attempting-Finishes msg m f h k s = behind_call msg f s (m s.world) (h s.world) k

  pub parsed-Finishes :
      {A : Type 0} (f : A → Exec (Session W) (Unit {0})) (r : Parsed A)
      → ((a : A) → Finishes (f a))
      → Finishes (on_parsed f r)
  parsed-Finishes f (threw what) h s = tt
  parsed-Finishes f helped h s = tt
  parsed-Finishes f (parsed a) h s = h a s

  pub refuse-Finishes : Finishes {A = Unit {0}} refuse
  refuse-Finishes s = tt

  pub with_options-Finishes :
      {A : Type 0} (parse : List Str → Parsed A) (f : A → Exec (Session W) (Unit {0}))
      → ((a : A) → Finishes (f a))
      → (args : List Str) → Finishes (with_options parse f args)
  with_options-Finishes parse f h args =
      branch-Finishes (length args == 1) _ _ (λ s. tt) (parsed-Finishes f (parse args) h)

  pub without_options-Finishes :
      {A : Type 0} (parse : List Str → Parsed A) (f : A → Exec (Session W) (Unit {0}))
      → ((a : A) → Finishes (f a))
      → (args : List Str) → Finishes (without_options parse f args)
  without_options-Finishes parse f h args =
      branch-Finishes (ltb 2 (length args)) _ _ refuse-Finishes (parsed-Finishes f (parse args) h)

  print_ids-Finishes : (ids : List ℤ) → Finishes (print_ids ids)
  unfolding print_ids
  print_ids-Finishes [] s = tt
  print_ids-Finishes (id ∷ ids) s = print_ids-Finishes ids _

  pub print_lines-Finishes : (ls : List Str) → Finishes (print_lines ls)
  unfolding print_lines
  print_lines-Finishes [] s = tt
  print_lines-Finishes (l ∷ ls) s = print_lines-Finishes ls _

  pub print_list-Finishes : (empty : String) (ids : List ℤ) → Finishes (print_list empty ids)
  unfolding print_list
  print_list-Finishes empty [] s = tt
  print_list-Finishes empty (id ∷ ids) s = print_ids-Finishes (id ∷ ids) _

  pub given-Finishes :
      (o : Option Str) (f : Str → Exec (Session W) (Unit {0}))
      → ((x : Str) → Finishes (f x))
      → Finishes (given o f)
  given-Finishes none f h = refuse-Finishes
  given-Finishes (some x) f h = branch-Finishes (is_empty x) _ _ refuse-Finishes (h x)

  -- The command of a name, if there is one.
  abbrev pub Ready : Option (List Str → Exec (Session W) (Unit {0})) → Type 0
  Ready none = Unit {0}
  Ready (some f) = (args : List Str) → Finishes (f args)

  pub branch-Ready :
      (b : Bool) (f : List Str → Exec (Session W) (Unit {0}))
      (o : Option (List Str → Exec (Session W) (Unit {0})))
      → Ready (some f)
      → Ready o
      → Ready (if b then some f else o)
  branch-Ready true f o h k = h
  branch-Ready false f o h k = k

  pub said-Finishes : {A : Type 0} (x : Said) (a : A) → Finishes (say {W = W} x)
  said-Finishes x a s = tt
