-- ===== src/Setup/Database.antt =====
-- model/dao/sqliteconnect.cpp, and sqliteInit of controller/global/global.cpp: the directory of the
-- databases.
use simple_task_queue.Common.{
  Bool, true, false, ◌==◌, if◌then◌else◌, Option, none, some, List, [], ◌∷◌, Str, is_empty,
}
use simple_task_queue.ErrMsg.{invalid_argument}
use simple_task_queue.Exec.{Result, ok, err, hang}
use simple_task_queue.Sqlite.{Sqlite}
use simple_task_queue.Process.{Process}
use simple_task_queue.Queue.{Queue}
use simple_task_queue.QueueList.{QueueList, FileKind, init_list}
use simple_task_queue.Setup.Dirs.{Files, verify_dir}

-- Without the last byte, if it is a slash, the byte 47.
unfoldable pub without_slash : Str → Str
without_slash [] = []
without_slash (c ∷ []) = if c == 47 then [] else c ∷ []
without_slash (c ∷ (d ∷ s)) = c ∷ without_slash (d ∷ s)

unfoldable pub checked_base : {D : Type 0} → Str → Result (Unit {0}) × D → Result Str × D
checked_base base (ok x, d) = (ok base, d)
checked_base base (err code, d) = (err invalid_argument, d)
checked_base base (hang, d) = (hang, d)

unfoldable pub emptied : {S : Sqlite} {P : Process} → QueueList S P
emptied = record { path = none; queues = [] }

unfoldable pub list_if_ok :
    {S : Sqlite} {P : Process} {D : Type 0}
    → D
    → Result (Unit {0}) × QueueList S P
    → Option (QueueList S P) × D
list_if_ok d (ok x, l) = (some l, d)
list_if_ok d (err code, l) = (none, d)
list_if_ok d (hang, l) = (none, d)

unfoldable pub is_ok : {A D : Type 0} → Result A × D → Bool
is_ok (ok a, d) = true
is_ok (err code, d) = false
is_ok (hang, d) = false

module _ (F : Files) where
  -- startConnect: the base path that it keeps. convertPath does nothing but on Windows.
  unfoldable pub sqlite_start_connect : Str → F.Disk → Result Str × F.Disk
  unfolding checked_base without_slash
  sqlite_start_connect target d =
      if is_empty target
      then (err invalid_argument, d)
      else checked_base (without_slash target) (verify_dir F (without_slash target) d)

  module _ {S : Sqlite} {P : Process} (blank : Queue S P)
      (entries : Str → F.Disk → List (FileKind × Str × Option P.State)) where
    -- The list of queues on the base path; `entries` is what a directory_iterator gives. verifyDir looks
    -- at the path once more.
    unfoldable pub opened : Result Str × F.Disk → Option (QueueList S P) × F.Disk
    unfolding list_if_ok is_ok emptied
    opened (ok base, d) =
        let checked = verify_dir F base d in
        list_if_ok checked.1
          (init_list blank (some base) (is_ok checked) (entries base checked.1) emptied)
    opened (err code, d) = (none, d)
    opened (hang, d) = (none, d)

    unfoldable pub sqlite_init : Str → F.Disk → Option (QueueList S P) × F.Disk
    unfolding opened sqlite_start_connect
    sqlite_init target d = opened (sqlite_start_connect target d)
