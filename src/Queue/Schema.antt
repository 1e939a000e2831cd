-- ===== src/Queue/Schema.antt =====
-- model/dao/sqlitequeue.cpp: connectToDB, createTable, verifyTable and verifyID, which open a database
-- and make or check its tables.
use simple_task_queue.Common.{
  ℕ, suc, Bool, true, false, not, ◌||◌, String, concat, List, [], ◌∷◌, Str, codes, str_eq, ◌==◌,
  if◌then◌else◌,
}
use simple_task_queue.Exec.{Result, ok, err, Exec, pure, fail, require, ◌>>=◌, ◌>>◌}
use simple_task_queue.Sqlite.{
  Sqlite, Token, text, Row, prepare, step, finally, execute, fetch, release, attempt,
}

-- The map dbColumnName as init fills it.
column_types : List (Str × Str)
column_types =
    (codes "execName", codes "TEXT")
    ∷ (codes "args", codes "TEXT")
    ∷ (codes "workDir", codes "TEXT")
    ∷ (codes "ID", codes "INT")
    ∷ (codes "exitCode", codes "INT")
    ∷ (codes "isSuccess", codes "INT")
    ∷ []

-- dbColumnName[name]: operator[] gives the empty string where there is no entry.
type_of_column : Str → List (Str × Str) → Str
type_of_column name [] = []
type_of_column name ((n, type) ∷ entries) =
    if str_eq n name then type else type_of_column name entries

-- The loop over PRAGMA table_info in verifyTable.
unfoldable pub check_column : ℕ → Row → Result ℕ
unfolding column_types type_of_column
check_column count r =
    if str_eq (type_of_column (r.column_text 1) column_types) (r.column_text 2)
    then ok (suc count)
    else err 1

-- The same loop in verifyID.
unfoldable pub check_id_column : ℕ → Row → Result ℕ
check_id_column count r =
    if str_eq (r.column_text 1) (codes "ID")
    then if str_eq (r.column_text 2) (codes "INT") then ok (suc count) else err 1
    else err 1

abbrev count_row : ℕ → Row → Result ℕ
count_row count r = ok (suc count)

abbrev table_sql : String
table_sql = "SELECT name FROM sqlite_master WHERE type='table' AND name=?;"

abbrev create_sql : String → String
create_sql name =
    concat (concat "create table " name)
      " (execName text NOT NULL, args text NOT NULL, workDir text NOT NULL, ID INT NOT NULL PRIMARY KEY, exitCode INT NOT NULL, isSuccess INT NOT NULL);"

abbrev columns_sql : String → String
columns_sql name = concat (concat "PRAGMA table_info(\"" name) "\");"

module _ {S : Sqlite} where
  -- 2: the table was made.
  unfoldable create_table : String → Exec (Token S) ℕ
  create_table name = finally (do execute (create_sql name) [] 1 1; pure 2)

  verify_columns : String → Exec (Token S) ℕ
  verify_columns name = do
    count ← fetch (columns_sql name) [] check_column 1 0
    require (count == 6) 1
    pure 0

  -- 0: the table is there and has the six columns; 2: it was made.
  unfoldable pub verify_table : String → Exec (Token S) ℕ
  unfolding create_table verify_columns
  verify_table name = finally (do
    count ← fetch table_sql (text (codes name) ∷ []) count_row 1 0
    release
    if count == 0 then create_table name else if count == 1 then verify_columns name else fail 1)

  -- A step that does not end well is noted in `ret`, and the last line overwrites `ret`.
  create_last_id : Exec (Token S) ℕ
  create_last_id = do
    prepare "create table lastID (ID INT NOT NULL PRIMARY KEY);" 1
    step
    release
    execute "insert into lastID values(0);" [] 1 1
    pure 2

  verify_last_id : Exec (Token S) ℕ
  verify_last_id = do
    columns ← fetch "PRAGMA table_info('lastID');" [] check_id_column 1 0
    require (columns == 1) 1
    release
    rows ← fetch "SELECT * from lastID;" [] count_row 1 0
    require (rows == 1) 1
    pure 0

  unfoldable pub verify_id : Exec (Token S) ℕ
  unfolding create_last_id verify_last_id
  verify_id = finally (do
    count ←
        fetch "SELECT name FROM sqlite_master WHERE type='table' AND name='lastID';" [] count_row 1
          0
    release
    if count == 0 then create_last_id else if count == 1 then verify_last_id else fail 1)

  -- sqlite3_close(m_token->db); m_token->db = nullptr; return 1;
  unfoldable pub close_failed : Exec (Token S) (Unit {0})
  close_failed t = (err 1, record t { db = S.close t.db; is_open = false })

  -- The comparison of the three codes behind the three calls.
  unfoldable pub compare_codes : ℕ → ℕ → ℕ → Exec (Token S) (Unit {0})
  compare_codes rc_pending rc_done rc_id =
      if (not (rc_pending == rc_done) || not (rc_pending == rc_id)) || not (rc_done == rc_id)
      then close_failed
      else pure tt

  -- The source tests `rcPending` behind each of the three calls.
  unfoldable pub after_id : ℕ → ℕ → ℕ → Exec (Token S) (Unit {0})
  unfolding compare_codes
  after_id rc_pending rc_done rc_id =
      if rc_pending == 1 then close_failed else compare_codes rc_pending rc_done rc_id

  unfoldable pub after_done : ℕ → ℕ → Exec (Token S) (Unit {0})
  unfolding after_id
  after_done rc_pending rc_done =
      if rc_pending == 1 then close_failed else attempt verify_id >>= after_id rc_pending rc_done

  unfoldable pub after_pending : ℕ → Exec (Token S) (Unit {0})
  unfolding after_done
  after_pending rc_pending =
      if rc_pending == 1
      then close_failed
      else attempt (verify_table "done") >>= after_done rc_pending

  unfoldable pub verify_all : Exec (Token S) (Unit {0})
  unfolding after_pending
  verify_all = attempt (verify_table "pending") >>= after_pending

  unfoldable pub after_open : Token S → Bool × S.Db → Result (Unit {0}) × Token S
  after_open t (true, db) = verify_all (record t { db = db; is_open = true })
  after_open t (false, db) = (err 1, record t { db = db; is_open = false })

  unfoldable pub connect_to_db : Str → Exec (Token S) (Unit {0})
  unfolding after_open
  connect_to_db path t = after_open t (S.open_db path t.db)
