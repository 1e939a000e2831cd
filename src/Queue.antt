-- ===== src/Queue.antt =====
-- model/dao/sqlitequeue.hpp and sqlitequeue.cpp: a queue of tasks in one SQLite database. Each method
-- runs under the mutexes that the source takes, as one step; the two atomic flags are fields.
pub mod Tables
pub mod Schema
pub mod SchemaLaws
pub mod SchemaExamples
pub mod MainLoop
pub mod Contract
pub mod Statements
pub mod Fetch
pub mod TableLaws
pub mod ReadLaws
pub mod DetailLaws
pub mod IdLaws
pub mod AddLaws
pub mod Valid
pub mod Keeps
pub mod Methods
pub mod RoundLaws
pub mod Moves
pub mod Rounds
pub mod Drain
pub mod Spec
pub mod Implements
pub mod Refinement
pub mod Locks
pub mod Sample
pub mod Examples
use simple_task_queue.Common.{
  ℕ, zero, suc, Bool, true, false, Option, none, some, List, [], ◌++◌, Str, codes, is_empty, ℤ,
  int_eq, if◌then◌else◌, ◌==◌, ◌||◌,
}
use simple_task_queue.Task.{Task, empty_task}
use simple_task_queue.ErrMsg.{invalid_argument, not_found, os_error}
use simple_task_queue.Exec.{Result, ok, err, hang, Exec, pure, fail, lift, recode, ◌>>=◌, ◌>>◌}
use simple_task_queue.Sqlite.{Sqlite, Token, Row, row, done, error, Outcome, prepare, step, finally}
use simple_task_queue.Process.{Process}
use Tables.{
  clear_table, list_id_in_table, task_details, add_task_to_table, delete_from_pending, get_id,
  first_sql, task_of_row,
}
use Schema.{connect_to_db}

-- m_token, m_process, m_currentTask, m_isRunning and m_start.
pub record Queue (S : Sqlite) (P : Process) : Type 0 where
  pub token : Token S
  pub process : P.State
  pub current_task : Task
  pub is_running : Bool
  pub start_flag : Bool

module _ {S : Sqlite} {P : Process} where
  unfoldable pub put_token : {A : Type 0} → Queue S P → Result A × Token S → Result A × Queue S P
  put_token q (r, t) = (r, record q { token = t })

  -- A private function that uses the database alone.
  unfoldable pub on_token : {A : Type 0} → Exec (Token S) A → Exec (Queue S P) A
  unfolding put_token
  on_token m q = put_token q (m q.token)

  unfoldable pub connected : P.State → Result (Unit {0}) × Queue S P → Result (Unit {0}) × Queue S P
  connected process (ok tt, q) =
      (ok tt, record q { process = process; is_running = false; start_flag = false })
  connected process (err code, q) = (err os_error, q)
  connected process (hang, q) = (hang, q)

  -- `path` is connect->targetPath(); memory is always there.
  unfoldable pub init : Str → Option P.State → Str → Exec (Queue S P) (Unit {0})
  unfolding connected
  init path none name q = (err invalid_argument, q)
  init path (some process) name q =
      if is_empty name
      then (err invalid_argument, q)
      else connected process
          (on_token (connect_to_db ((path ++ codes "/") ++ (name ++ codes ".db"))) q)

  unfoldable pub list_pending : Exec (Queue S P) (List ℤ)
  list_pending = on_token (list_id_in_table "pending")

  unfoldable pub list_finished : Exec (Queue S P) (List ℤ)
  list_finished = on_token (list_id_in_table "done")

  unfoldable pub pending_details : ℤ → Exec (Queue S P) Task
  pending_details id = on_token (task_details "pending" id)

  unfoldable pub finished_details : ℤ → Exec (Queue S P) Task
  finished_details id = on_token (task_details "done" id)

  unfoldable pub clear_pending : Exec (Queue S P) (Unit {0})
  clear_pending = on_token (clear_table "pending")

  unfoldable pub clear_finished : Exec (Queue S P) (Unit {0})
  clear_finished = on_token (clear_table "done")

  unfoldable pub read_current_task : Exec (Queue S P) Task
  read_current_task q = if q.is_running then (ok q.current_task, q) else (err invalid_argument, q)

  -- in.ID, which the caller reads, is the result.
  unfoldable pub add_task : Task → Exec (Queue S P) ℤ
  add_task task = on_token (do
    id ← λ t. recode os_error (get_id t)
    add_task_to_table "pending" (record task { id = id })
    pure id)

  -- removeTaskFromPending with `needCheckCurrentTask`.
  unfoldable pub remove_task : ℤ → Exec (Queue S P) (Unit {0})
  remove_task id q =
      if int_eq id q.current_task.id
      then (err invalid_argument, q)
      else on_token (delete_from_pending id) q

  unfoldable pub read_current_output : Exec (Queue S P) (List Str)
  read_current_output q =
      let (out, process) = P.read_current_output q.process in
      (ok out, record q { process = process })

  -- The thread that runs main_loop starts here.
  unfoldable pub start : Exec (Queue S P) (Unit {0})
  start q =
      if q.is_running
      then (err invalid_argument, q)
      else (ok tt, record q { is_running = true; start_flag = true })

  -- stopImpl, which the destructor calls too.
  unfoldable pub stop : Queue S P → Queue S P
  stop q =
      if q.is_running
      then record q { start_flag = false; is_running = false; process = P.stop q.process }
      else q
