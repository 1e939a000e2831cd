-- ===== src/Queue/Contract.antt =====
-- What the queue relies on in SQLite: the documented meaning of the statements that it sends, over
-- the contents of the tables. The order of the rows of `SELECT *` is the order of insertion, which
-- SQLite keeps for these tables though it does not promise it; `SELECT ID` may use an index and is
-- taken in any order.
use simple_task_queue.Common.{
  ℕ, ◌+◌, ◌≡◌, Bool, true, false, none, some, String, List, [], ◌∷◌, ◌++◌, map, Str, ℤ, int_eq,
  if◌then◌else◌, length, take, Perm,
}
use simple_task_queue.Sqlite.{Sqlite, Value, int, text, Row, Outcome, row, done, error}
use simple_task_queue.Queue.Tables.{
  clear_sql, ids_sql, details_sql, insert_sql, delete_sql, last_id_sql, update_id_sql, first_sql,
}

-- A row of `pending` or `done`; `args` is the joined argument list.
pub record Entry : Type 0 where
  pub exec_name : Str
  pub args : Str
  pub work_dir : Str
  pub id : ℤ
  pub exit_code : ℤ
  pub is_success : ℤ

-- The contents of the three tables.
pub record Store : Type 0 where
  pub pending : List Entry
  pub done : List Entry
  pub last_id : List ℤ

pub data Table : Type 0 where
  pending_table done_table : Table

abbrev pub table_name : Table → String
table_name pending_table = "pending"
table_name done_table = "done"

abbrev pub entries : Table → Store → List Entry
entries pending_table st = st.pending
entries done_table st = st.done

abbrev pub with_entries : Table → List Entry → Store → Store
with_entries pending_table es st = record st { pending = es }
with_entries done_table es st = record st { done = es }

pub data Query : Type 0 where
  insert_into clear ids_of details_of : Table → Query
  delete_pending first_pending read_last_id set_last_id : Query

abbrev pub sql_of : Query → String
sql_of (insert_into t) = insert_sql (table_name t)
sql_of (clear t) = clear_sql (table_name t)
sql_of (ids_of t) = ids_sql (table_name t)
sql_of (details_of t) = details_sql (table_name t)
sql_of delete_pending = delete_sql
sql_of first_pending = first_sql
sql_of read_last_id = last_id_sql
sql_of set_last_id = update_id_sql

abbrev pub has_id : ℤ → List Entry → Bool
has_id id [] = false
has_id id (e ∷ es) = if int_eq e.id id then true else has_id id es

abbrev pub with_id : ℤ → List Entry → List Entry
with_id id [] = []
with_id id (e ∷ es) = if int_eq e.id id then e ∷ with_id id es else with_id id es

abbrev pub without_id : ℤ → List Entry → List Entry
without_id id [] = []
without_id id (e ∷ es) = if int_eq e.id id then without_id id es else e ∷ without_id id es

-- What a statement that changes the tables does: the contents that it leaves if it succeeds, or that a
-- PRIMARY KEY refuses it. Nothing is said of what the program does not send.
pub data Verdict : Type 0 where
  changes : Store → Verdict
  refuses silent : Verdict

abbrev renumber : ℤ → ℤ → Store → List ℤ → Verdict
renumber new old st [] = changes st
renumber new old st (x ∷ []) =
    changes (record st { last_id = (if int_eq x old then new else x) ∷ [] })
renumber new old st (x ∷ (y ∷ ys)) = silent

abbrev pub effect : Query → List Value → Store → Verdict
effect (insert_into t) (text e ∷ (text a ∷ (text w ∷ (int i ∷ (int x ∷ (int s ∷ [])))))) st =
    if has_id i (entries t st)
    then refuses
    else changes (
        with_entries t
          (entries t st
            ++ record {
              exec_name = e;
              args = a;
              work_dir = w;
              id = i;
              exit_code = x;
              is_success = s;
            }
              ∷ [])
          st)
effect (clear t) [] st = changes (with_entries t [] st)
effect delete_pending (int i ∷ []) st = changes (record st { pending = without_id i st.pending })
effect set_last_id (int new ∷ (int old ∷ [])) st = renumber new old st st.last_id
effect _ _ st = silent

-- The columns of a row of a task table, and of a row whose first column is a number.
pub record Shows (r : Row) (e : Entry) : Type 0 where
  pub exec_name : r.column_text 0 ≡ e.exec_name
  pub args : r.column_text 1 ≡ e.args
  pub work_dir : r.column_text 2 ≡ e.work_dir
  pub id : r.column_int 3 ≡ e.id
  pub exit_code : r.column_int 4 ≡ e.exit_code
  pub is_success : r.column_int 5 ≡ e.is_success

abbrev pub AllShow : List Row → List Entry → Type 0
AllShow [] [] = Unit {0}
AllShow (r ∷ rs) (e ∷ es) = Shows r e × AllShow rs es
AllShow _ _ = ⊥

abbrev pub AllShowId : List Row → List ℤ → Type 0
AllShowId [] [] = Unit {0}
AllShowId (r ∷ rs) (n ∷ ns) = (r.column_int 0 ≡ n) × AllShowId rs ns
AllShowId _ _ = ⊥

abbrev pub ids : List Entry → List ℤ
ids = map λ e. e.id

-- The rows that a query may give.
abbrev pub Answer : Query → List Value → Store → List Row → Type 0
Answer (ids_of t) [] st rows = (ns : List ℤ) × Perm ns (ids (entries t st)) × AllShowId rows ns
Answer (details_of t) (int i ∷ []) st rows = AllShow rows (with_id i (entries t st))
Answer first_pending [] st rows = AllShow rows (take 1 st.pending)
Answer read_last_id [] st rows = AllShowId rows st.last_id
Answer _ _ st rows = Unit {0}

abbrev pub IsRead : Query → Type 0
IsRead (ids_of t) = Unit {0}
IsRead (details_of t) = Unit {0}
IsRead first_pending = Unit {0}
IsRead read_last_id = Unit {0}
IsRead _ = ⊥

-- A statement with the values bound so far, or with the rows that it has still to give.
pub data Progress : Type 0 where
  ready : String → List Value → Progress
  reading : List Row → Progress
  spent : Progress

-- `Fault` says that the library has failed, for no reason that the contract gives.
module _ {Db Stmt : Type 0} (Fault : Type 0) (view : Db → Store) (progress : Stmt → Progress) where
  -- One step of a statement that has `rows` left.
  abbrev pub Reads : List Row → Store → Outcome × Stmt × Db → Type 0
  Reads rows v (row r, s, db) =
      (rest : List Row) × (rows ≡ r ∷ rest) × (progress s ≡ reading rest) × (view db ≡ v)
  Reads rows v (done, s, db) = (rows ≡ []) × (view db ≡ v)
  Reads rows v (error, s, db) = (view db ≡ v) × Fault

  -- The one step of a statement that changes the tables.
  abbrev pub Writes : Verdict → Store → Outcome × Stmt × Db → Type 0
  Writes (changes w) v (row r, s, db) = ⊥
  Writes (changes w) v (done, s, db) = view db ≡ w
  Writes (changes w) v (error, s, db) = (view db ≡ v) × Fault
  Writes refuses v (row r, s, db) = ⊥
  Writes refuses v (done, s, db) = ⊥
  Writes refuses v (error, s, db) = view db ≡ v
  Writes silent v r = Unit {0}

-- With `Fault` false the library is reliable.
pub record Contract (S : Sqlite) (Fault : Type 0) : Type 0 where
  pub view : S.Db → Store
  pub progress : S.Stmt → Progress
  pub prepare_keeps : (sql : String) (db : S.Db) → view (S.prepare sql db).1 ≡ view db
  pub prepare_ready :
      (sql : String) (db : S.Db) (s : S.Stmt)
      → (S.prepare sql db).0 ≡ some s
      → progress s ≡ ready sql []
  pub prepare_fault : (sql : String) (db : S.Db) → (S.prepare sql db).0 ≡ none → Fault
  pub bind_keeps : (i : ℕ) (v : Value) (s : S.Stmt) (db : S.Db) → view (S.bind i v s db).2 ≡ view db
  pub bind_ready :
      (sql : String) (vs : List Value) (v : Value) (s : S.Stmt) (db : S.Db)
      → progress s ≡ ready sql vs
      → (S.bind (length vs + 1) v s db).0 ≡ true
      → progress (S.bind (length vs + 1) v s db).1 ≡ ready sql (vs ++ v ∷ [])
  pub bind_fault :
      (i : ℕ) (v : Value) (s : S.Stmt) (db : S.Db) → (S.bind i v s db).0 ≡ false → Fault
  pub finalize_keeps : (s : S.Stmt) (db : S.Db) → view (S.finalize s db) ≡ view db
  pub step_read :
      (q : Query) (vs : List Value) (s : S.Stmt) (db : S.Db)
      → IsRead q
      → progress s ≡ ready (sql_of q) vs
      → (rows : List Row) × Answer q vs (view db) rows
        × Reads Fault view progress rows (view db) (S.step s db)
  pub step_next :
      (rows : List Row) (s : S.Stmt) (db : S.Db)
      → progress s ≡ reading rows
      → Reads Fault view progress rows (view db) (S.step s db)
  pub step_write :
      (q : Query) (vs : List Value) (s : S.Stmt) (db : S.Db)
      → progress s ≡ ready (sql_of q) vs
      → Writes Fault view progress (effect q vs (view db)) (view db) (S.step s db)
