-- ===== src/QueueList.antt =====
-- model/dao/sqlitequeuelist.hpp and sqlitequeuelist.cpp: the queues of a server by their names. The
-- map holds each queue, with the contents of its file; other references to one live within a call. Two
-- queues on one file, as a rename and then a creation of the old name make them, share its tasks in the
-- source, and are apart here.
pub mod Laws
pub mod Create
pub mod Files
pub mod Scan
pub mod Restart
pub mod Examples
use simple_task_queue.Common.{
  ℕ, suc, Bool, Option, none, some, List, [], ◌∷◌, Str, codes, str_eq, ◌==◌, if◌then◌else◌, take,
  drop, Named, lookup, assign, erase, names,
}
use simple_task_queue.ErrMsg.{os_error, not_found, invalid_argument}
use simple_task_queue.Exec.{Result, ok, err, hang, Exec, continue}
use simple_task_queue.Sqlite.{Sqlite}
use simple_task_queue.Process.{Process}
use simple_task_queue.Queue.{Queue, init}

-- m_conn, of which the target path is used, and m_queueList.
pub record QueueList (S : Sqlite) (P : Process) : Type 0 where
  pub path : Option Str
  pub queues : List (Named (Queue S P))

-- What a directory_iterator gives: the path and what stands there.
pub data FileKind : Type 0 where
  directory regular_file other_file : FileKind

-- The last position of a byte, for std::string::find_last_of.
unfoldable pub find_last_of : ℕ → Str → Option ℕ
find_last_of c [] = none
find_last_of c (x ∷ s) = elim (find_last_of c s) [
  | some i ↦ some (suc i)
  | none ↦ if x == c then some 0 else none
]

-- substr(index + 1), where npos + 1 is 0.
unfoldable pub after_last : ℕ → Str → Str
unfolding find_last_of
after_last c s = elim (find_last_of c s) [ some i ↦ drop (suc i) s | none ↦ s ]

-- substr(0, index), where npos is past the end.
unfoldable pub before_last : ℕ → Str → Str
unfolding find_last_of
before_last c s = elim (find_last_of c s) [ some i ↦ take i s | none ↦ s ]

-- The queue that a file holds: the slash is byte 47, the dot 46.
unfoldable pub file_queue : FileKind → Str → Option Str
unfolding after_last before_last
file_queue directory path = none
file_queue other_file path = none
file_queue regular_file path =
    let name = after_last 47 path in
    if str_eq (after_last 46 name) (codes "db") then some (before_last 46 name) else none

module _ {S : Sqlite} {P : Process} where
  unfoldable pub created :
      Str → QueueList S P → Result (Unit {0}) × Queue S P → Result (Unit {0}) × QueueList S P
  created name l (ok tt, q) = (ok tt, record l { queues = assign name q l.queues })
  created name l (err code, q) = (err os_error, l)
  created name l (hang, q) = (hang, l)

  -- `blank` is the queue that SQLiteQueue's constructor makes, and `process` the new process after its
  -- init, or `none` if that fails. A queue asks for m_conn before its name.
  unfoldable pub create_queue : Queue S P → Option P.State → Str → Exec (QueueList S P) (Unit {0})
  unfolding created
  create_queue blank none name l = (err os_error, l)
  create_queue blank (some process) name l = elim l.path [
    | none ↦ (err os_error, l)
    | some path ↦ created name l (init path (some process) name blank)
  ]

  unfoldable pub listed : QueueList S P → List Str → Result (List Str) × QueueList S P
  listed l [] = (err not_found, l)
  listed l (n ∷ ns) = (ok (n ∷ ns), l)

  unfoldable pub list_queue : Exec (QueueList S P) (List Str)
  unfolding listed
  list_queue l = listed l (names l.queues)

  unfoldable pub deleted :
      Str → QueueList S P → Option (Queue S P) → Result (Unit {0}) × QueueList S P
  deleted name l none = (err not_found, l)
  deleted name l (some q) = (ok tt, record l { queues = erase name l.queues })

  unfoldable pub delete_queue : Str → Exec (QueueList S P) (Unit {0})
  unfolding deleted
  delete_queue name l = deleted name l (lookup name l.queues)

  unfoldable pub renamed :
      Str → Str → QueueList S P → Option (Queue S P) → Result (Unit {0}) × QueueList S P
  renamed old_name new_name l none = (err not_found, l)
  renamed old_name new_name l (some q) =
      (ok tt, record l { queues = erase old_name (assign new_name q l.queues) })

  -- The loop stops at the entry with the old name.
  unfoldable pub rename_queue : Str → Str → Exec (QueueList S P) (Unit {0})
  unfolding renamed
  rename_queue old_name new_name l = renamed old_name new_name l (lookup old_name l.queues)

  unfoldable pub get_queue : Str → QueueList S P → Option (Queue S P)
  get_queue name l = lookup name l.queues

  unfoldable pub after_create :
      Result (Unit {0}) × QueueList S P → Result (Unit {0}) × QueueList S P
  after_create (ok tt, l) = (ok tt, l)
  after_create (err code, l) = (err os_error, record l { path = none; queues = [] })
  after_create (hang, l) = (hang, l)

  -- What is done with one entry of the directory; `next` is the rest of the loop.
  unfoldable pub scan_entry :
      Queue S P
      → Option P.State
      → Option Str
      → Exec (QueueList S P) (Unit {0})
      → Exec (QueueList S P) (Unit {0})
  unfolding after_create
  scan_entry blank process none next l = next l
  scan_entry blank process (some name) next l =
      continue (λ _. next) (after_create (create_queue blank process name l))

  -- The entries of the directory, each with the process for its queue.
  unfoldable pub scan :
      Queue S P → List (FileKind × Str × Option P.State) → Exec (QueueList S P) (Unit {0})
  unfolding scan_entry
  scan blank [] l = (ok tt, l)
  scan blank ((kind, path, process) ∷ files) l =
      let rest = scan blank files in scan_entry blank process (file_queue kind path) rest l

  -- `path` is connect->targetPath(), or `none` for a null connection; `dir_ok` says whether
  -- DirUtils::verifyDir accepts it.
  unfoldable pub init_list :
      Queue S P
      → Option Str
      → Bool
      → List (FileKind × Str × Option P.State)
      → Exec (QueueList S P) (Unit {0})
  init_list blank none dir_ok files l = (err invalid_argument, l)
  init_list blank (some path) dir_ok files l =
      if dir_ok
      then scan blank files (record l { path = some path; queues = [] })
      else (err invalid_argument, l)
