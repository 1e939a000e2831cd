-- ===== src/QueueList/Restart.antt =====
-- model/dao/sqlitequeue.cpp and sqlitequeuelist.cpp: the file that createQueue opens for a queue, and what
-- init makes of it when the server starts again.
use simple_task_queue.Common.{
  ◌≡◌, refl, subst, inl, inr, true, false, Option, some, List, [], ◌∷◌, ◌++◌, Str, is_empty,
}
use simple_task_queue.Exec.{ok}
use simple_task_queue.Sqlite.{Sqlite}
use simple_task_queue.Process.{Process}
use simple_task_queue.Queue.{Queue, init, connected, put_token, on_token}
use simple_task_queue.Queue.Schema.{connect_to_db, after_open}
use simple_task_queue.QueueList.{
  QueueList, FileKind, regular_file, create_queue, created, init_list, get_queue,
}
use simple_task_queue.QueueList.Laws.{is_some}
use simple_task_queue.QueueList.Files.{Lacks, IsDatabase, database_path, database_path-IsDatabase}
use simple_task_queue.QueueList.Scan.{HasFile, InitEnds, init_list-InitEnds}

among-HasFile :
    {A : Type 0} (k path : Str) (process : A) (before after : List (FileKind × Str × A))
    → IsDatabase k path
    → HasFile k (before ++ (regular_file, path, process) ∷ after)
among-HasFile k path process [] after h = inl (refl, h)
among-HasFile k path process ((kind, p, q) ∷ before) after h =
    inr (among-HasFile k path process before after h)

module _ {S : Sqlite} {P : Process} where
  -- How createQueue makes the queue of a name: from what sqlite3_open gives for a file.
  abbrev pub MadeFrom : Str → Queue S P → P.State → Str → QueueList S P → Type 0
  MadeFrom file blank process name l =
      create_queue blank (some process) name l
      ≡ created name l (
          connected process
            (put_token blank (after_open blank.token (S.open_db file blank.token.db))))

  create_queue-MadeFrom :
      (blank : Queue S P) (process : P.State) (path name : Str) (l : QueueList S P)
      → l.path ≡ some path
      → is_empty name ≡ false
      → MadeFrom (database_path path name) blank process name l
  unfolding create_queue init on_token connect_to_db
  create_queue-MadeFrom blank process path name l at named = rw (at, named) refl

  known :
      (files : List (FileKind × Str × Option P.State)) (l0 l : QueueList S P) (name : Str)
      → InitEnds files l0 (ok tt, l)
      → HasFile name files
      → is_some (get_queue name l) ≡ true
  known files l0 l name h has = (h.1 name).1 has

  -- With the target path of the connection, and a name that is not empty and has no slash: createQueue
  -- makes the queue from the file that sqlite3_open gives for the path, a slash, the name and `.db`;
  -- and where this file is in the directory, an init of the list on the same path that succeeds has a
  -- queue of this name.
  pub init_list-create_queue :
      (blank : Queue S P) (process : P.State) (path name : Str) (l : QueueList S P)
      (before after : List (FileKind × Str × Option P.State)) (again : Option P.State)
      (l0 l' : QueueList S P)
      → l.path ≡ some path
      → is_empty name ≡ false
      → Lacks 47 name
      → init_list blank
          (some path)
          true
          (before ++ (regular_file, database_path path name, again) ∷ after)
          l0
        ≡ (ok tt, l')
      → MadeFrom (database_path path name) blank process name l
        × (is_some (get_queue name l') ≡ true)
  init_list-create_queue blank process path name l before after again l0 l' at named slash starts =
      let files = before ++ (regular_file, database_path path name, again) ∷ after in
      (
        create_queue-MadeFrom blank process path name l at named,
        known files l0 l' name
            (subst (InitEnds files l0) starts (init_list-InitEnds blank (some path) true files l0))
            (among-HasFile name (database_path path name) again before after
              (database_path-IsDatabase path name slash)),
      )
