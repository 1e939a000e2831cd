-- ===== src/Queue/Tables.antt =====
-- model/dao/sqlitequeue.cpp: the private functions that read and change the tables `pending`, `done`
-- and `lastID`. A function fails with the code that the source returns.
use simple_task_queue.Common.{
  ℕ, suc, String, concat, List, [], ◌∷◌, ◌++◌, ℤ, pos, int_suc, int_of_bool, bool_of_int, to_int32,
  ◌==◌, not,
}
use simple_task_queue.Args.{split_string, concat_string}
use simple_task_queue.Task.{Task, empty_task}
use simple_task_queue.ErrMsg.{invalid_argument, not_found, os_error}
use simple_task_queue.Exec.{Result, ok, Exec, pure, require, ◌>>=◌, ◌>>◌}
use simple_task_queue.Sqlite.{
  Sqlite, Token, Value, int, text, Row, finally, prepare, step, Outcome, execute, fetch, release,
}

abbrev pub clear_sql : String → String
clear_sql name = concat (concat "DELETE FROM " name) ";"

abbrev pub ids_sql : String → String
ids_sql name = concat (concat "SELECT ID FROM " name) ";"

abbrev pub details_sql : String → String
details_sql name = concat (concat "SELECT * FROM " name) " WHERE ID=?;"

abbrev pub insert_sql : String → String
insert_sql name = concat (concat (concat "insert into " name) " ") "values(?,?,?,?,?,?);"

abbrev pub delete_sql : String
delete_sql = "delete from pending where ID=?;"

abbrev pub last_id_sql : String
last_id_sql = "SELECT * FROM lastID;"

abbrev pub update_id_sql : String
update_id_sql = "update lastID set ID=? where ID=?;"

abbrev pub first_sql : String
first_sql = "SELECT * FROM pending limit 1;"

-- The six columns of the current row.
abbrev pub task_of_row : Row → Task
task_of_row r = record {
  exec_name = r.column_text 0;
  args = split_string (r.column_text 1);
  work_dir = r.column_text 2;
  id = r.column_int 3;
  exit_code = r.column_int 4;
  is_success = bool_of_int (r.column_int 5);
}

-- The six parameters of the insert statement; `int` parameters are narrowed to 32 bits.
abbrev pub values_of_task : Task → List Value
values_of_task t =
    text t.exec_name
    ∷ text (concat_string t.args)
    ∷ text t.work_dir
    ∷ int (to_int32 t.id)
    ∷ int (to_int32 t.exit_code)
    ∷ int (int_of_bool t.is_success)
    ∷ []

abbrev pub push_id : List ℤ → Row → Result (List ℤ)
push_id out r = ok (out ++ r.column_int 0 ∷ [])

-- rowCount, and the variable that each row overwrites.
abbrev pub keep_task : ℕ × Task → Row → Result (ℕ × Task)
keep_task (count, out) r = ok (suc count, task_of_row r)

abbrev pub keep_id : ℕ × ℤ → Row → Result (ℕ × ℤ)
keep_id (count, out) r = ok (suc count, r.column_int 0)

module _ {S : Sqlite} where
  unfoldable pub clear_table : String → Exec (Token S) (Unit {0})
  clear_table name = finally (execute (clear_sql name) [] os_error os_error)

  unfoldable pub list_id_in_table : String → Exec (Token S) (List ℤ)
  list_id_in_table name = finally (fetch (ids_sql name) [] push_id os_error [])

  unfoldable pub task_details : String → ℤ → Exec (Token S) Task
  task_details name id = finally (do
    found ← fetch (details_sql name) (int (to_int32 id) ∷ []) keep_task os_error (0, empty_task)
    require (not (found.0 == 0)) not_found
    pure found.1)

  unfoldable pub add_task_to_table : String → Task → Exec (Token S) (Unit {0})
  add_task_to_table name task =
      finally (execute (insert_sql name) (values_of_task task) os_error os_error)

  -- removeTaskFromPending behind its check of the current task.
  unfoldable pub delete_from_pending : ℤ → Exec (Token S) (Unit {0})
  delete_from_pending id = finally (execute delete_sql (int (to_int32 id) ∷ []) os_error not_found)

  -- The stored number is the new task's, and the next one is stored.
  unfoldable pub get_id : Exec (Token S) ℤ
  get_id = finally (do
    found ← fetch last_id_sql [] keep_id os_error (0, pos 0)
    require (found.0 == 1) invalid_argument
    release
    execute update_id_sql (int (to_int32 (int_suc found.1)) ∷ int (to_int32 found.1) ∷ []) os_error
        os_error
    pure found.1)

  -- The first pending task, in mainLoopInit.
  unfoldable pub first_task : Exec (Token S) Outcome
  first_task = finally (do prepare first_sql 1; step)
