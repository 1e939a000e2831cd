-- ===== src/Queue/Sample.antt =====
-- A library that keeps the contract: the tables in memory, with no faults. It shows that the contract
-- can be met, and runs the tests.
use mathlib.Core.List.Perm
use package.text.Mathlib.Text.{◌==◌}
use simple_task_queue.Common.{
  ℕ, zero, suc, ◌≡◌, refl, true, false, Option, none, some, String, List, [], ◌∷◌, ◌++◌, map, Str,
  ℤ, pos, take, if◌then◌else◌, subst, sym, some_inj, ◌≢◌,
}
use simple_task_queue.Sqlite.{Sqlite, Value, int, text, Row, Outcome, row, done, error}
use simple_task_queue.Queue.Contract.{
  Contract, Store, Entry, pending_table, done_table, Query, insert_into, clear, ids_of, details_of,
  delete_pending, first_pending, read_last_id, set_last_id, sql_of, effect, Verdict, changes,
  refuses, silent, entries, ids, with_id, AllShow, AllShowId, Answer, IsRead, Progress, ready,
  reading, spent, Reads, Writes,
}

abbrev columns_int : Entry → ℕ → ℤ
columns_int e (suc (suc (suc zero))) = e.id
columns_int e (suc (suc (suc (suc zero)))) = e.exit_code
columns_int e (suc (suc (suc (suc (suc zero))))) = e.is_success
columns_int e _ = pos 0

abbrev columns_text : Entry → ℕ → Str
columns_text e zero = e.exec_name
columns_text e (suc zero) = e.args
columns_text e (suc (suc zero)) = e.work_dir
columns_text e _ = []

abbrev row_of : Entry → Row
row_of e = record { column_int = columns_int e; column_text = columns_text e }

abbrev id_row : ℤ → Row
id_row n = record { column_int = λ _. n; column_text = λ _. [] }

abbrev all_queries : List Query
all_queries =
    insert_into pending_table
    ∷ insert_into done_table
    ∷ clear pending_table
    ∷ clear done_table
    ∷ ids_of pending_table
    ∷ ids_of done_table
    ∷ details_of pending_table
    ∷ details_of done_table
    ∷ delete_pending
    ∷ first_pending
    ∷ read_last_id
    ∷ set_last_id
    ∷ []

abbrev find_query : String → List Query → Option Query
find_query sql [] = none
find_query sql (q ∷ qs) = if sql_of q == sql then some q else find_query sql qs

find_query-sql_of : (q : Query) → find_query (sql_of q) all_queries ≡ some q
find_query-sql_of (insert_into pending_table) = refl
find_query-sql_of (insert_into done_table) = refl
find_query-sql_of (clear pending_table) = refl
find_query-sql_of (clear done_table) = refl
find_query-sql_of (ids_of pending_table) = refl
find_query-sql_of (ids_of done_table) = refl
find_query-sql_of (details_of pending_table) = refl
find_query-sql_of (details_of done_table) = refl
find_query-sql_of delete_pending = refl
find_query-sql_of first_pending = refl
find_query-sql_of read_last_id = refl
find_query-sql_of set_last_id = refl

abbrev rows_of : Query → List Value → Store → List Row
rows_of (ids_of t) [] st = map id_row (ids (entries t st))
rows_of (details_of t) (int i ∷ []) st = map row_of (with_id i (entries t st))
rows_of first_pending [] st = map row_of (take 1 st.pending)
rows_of read_last_id [] st = map id_row st.last_id
rows_of _ _ st = []

abbrev serve : List Row → Store → Outcome × Progress × Store
serve [] db = (done, spent, db)
serve (r ∷ rs) db = (row r, reading rs, db)

abbrev write : Verdict → Store → Outcome × Progress × Store
write (changes w) db = (done, spent, w)
write refuses db = (error, spent, db)
write silent db = (error, spent, db)

abbrev perform : Query → List Value → Store → Outcome × Progress × Store
perform (insert_into t) vs db = write (effect (insert_into t) vs db) db
perform (clear t) vs db = write (effect (clear t) vs db) db
perform delete_pending vs db = write (effect delete_pending vs db) db
perform set_last_id vs db = write (effect set_last_id vs db) db
perform q vs db = serve (rows_of q vs db) db

abbrev perform_found : Option Query → List Value → Store → Outcome × Progress × Store
perform_found none vs db = (error, spent, db)
perform_found (some q) vs db = perform q vs db

abbrev sample_step : Progress → Store → Outcome × Progress × Store
sample_step (ready sql vs) db = perform_found (find_query sql all_queries) vs db
sample_step (reading rows) db = serve rows db
sample_step spent db = (error, spent, db)

abbrev sample_bind : Value → Progress → Progress
sample_bind v (ready sql vs) = ready sql (vs ++ v ∷ [])
sample_bind v p = p

abbrev pub memory : Sqlite
memory = record {
  Db = Store;
  Stmt = Progress;
  open_db = λ path db. (true, db);
  close = λ db. db;
  prepare = λ sql db. (some (ready sql []), db);
  bind = λ i v s db. (true, sample_bind v s, db);
  step = sample_step;
  finalize = λ s db. db;
  rounds = 100;
}

abbrev MemoryReads : List Row → Store → Outcome × Progress × Store → Type 0
MemoryReads = Reads {Db = Store} {Stmt = Progress} ⊥ (λ d. d) (λ p. p)

abbrev MemoryWrites : Verdict → Store → Outcome × Progress × Store → Type 0
MemoryWrites = Writes {Db = Store} {Stmt = Progress} ⊥ (λ d. d) (λ p. p)

AllShow-rows : (es : List Entry) → AllShow (map row_of es) es
AllShow-rows [] = tt
AllShow-rows (e ∷ es) = (
  record {
    exec_name = refl;
    args = refl;
    work_dir = refl;
    id = refl;
    exit_code = refl;
    is_success = refl;
  },
  AllShow-rows es,
)

AllShowId-rows : (ns : List ℤ) → AllShowId (map id_row ns) ns
AllShowId-rows [] = tt
AllShowId-rows (n ∷ ns) = (refl, AllShowId-rows ns)

Reads-serve : (rows : List Row) (db : Store) → MemoryReads rows db (serve rows db)
Reads-serve [] db = (refl, refl)
Reads-serve (r ∷ rows) db = (rows, refl, refl, refl)

Writes-write : (e : Verdict) (db : Store) → MemoryWrites e db (write e db)
Writes-write (changes w) db = refl
Writes-write refuses db = refl
Writes-write silent db = tt

abbrev GivesRows : List Value → Store → Query → Outcome × Progress × Store → Type 0
GivesRows vs db q r = (rows : List Row) × Answer q vs db rows × MemoryReads rows db r

perform-GivesRows :
    (q : Query) (vs : List Value) (db : Store)
    → IsRead q
    → (rows : List Row) × Answer q vs db rows × MemoryReads rows db (perform q vs db)
perform-GivesRows (ids_of t) [] db h = (
  map id_row (ids (entries t db)),
  (ids (entries t db), Perm.refl _, AllShowId-rows _),
  Reads-serve _ db,
)
perform-GivesRows (ids_of t) (v ∷ vs) db h = ([], tt, Reads-serve [] db)
perform-GivesRows (details_of t) (int i ∷ []) db h =
    (map row_of (with_id i (entries t db)), AllShow-rows _, Reads-serve _ db)
perform-GivesRows (details_of t) [] db h = ([], tt, Reads-serve [] db)
perform-GivesRows (details_of t) (text i ∷ vs) db h = ([], tt, Reads-serve [] db)
perform-GivesRows (details_of t) (int i ∷ (v ∷ vs)) db h = ([], tt, Reads-serve [] db)
perform-GivesRows first_pending [] db h =
    (map row_of (take 1 db.pending), AllShow-rows _, Reads-serve _ db)
perform-GivesRows first_pending (v ∷ vs) db h = ([], tt, Reads-serve [] db)
perform-GivesRows read_last_id [] db h = (map id_row db.last_id, AllShowId-rows _, Reads-serve _ db)
perform-GivesRows read_last_id (v ∷ vs) db h = ([], tt, Reads-serve [] db)
perform-GivesRows (insert_into t) vs db h = absurd h
perform-GivesRows (clear t) vs db h = absurd h
perform-GivesRows delete_pending vs db h = absurd h
perform-GivesRows set_last_id vs db h = absurd h

perform-Writes :
    (q : Query) (vs : List Value) (db : Store) → MemoryWrites (effect q vs db) db (perform q vs db)
perform-Writes (insert_into t) vs db = Writes-write _ db
perform-Writes (clear t) vs db = Writes-write _ db
perform-Writes delete_pending vs db = Writes-write _ db
perform-Writes set_last_id vs db = Writes-write _ db
perform-Writes (ids_of t) vs db = tt
perform-Writes (details_of t) vs db = tt
perform-Writes first_pending vs db = tt
perform-Writes read_last_id vs db = tt

pub bind_ready-sample :
    (sql : String) (vs : List Value) (v : Value) (s : Progress)
    → s ≡ ready sql vs
    → sample_bind v s ≡ ready sql (vs ++ v ∷ [])
bind_ready-sample sql vs v s e = rw e

pub step_read-sample :
    (q : Query) (vs : List Value) (s : Progress) (db : Store)
    → IsRead q
    → s ≡ ready (sql_of q) vs
    → GivesRows vs db q (sample_step s db)
step_read-sample q vs s db h e =
    subst (λ p. GivesRows vs db q (sample_step p db)) (sym e)
      (subst (λ o. GivesRows vs db q (perform_found o vs db)) (sym (find_query-sql_of q))
        (perform-GivesRows q vs db h))

pub step_next-sample :
    (rows : List Row) (s : Progress) (db : Store)
    → s ≡ reading rows
    → MemoryReads rows db (sample_step s db)
step_next-sample rows s db e =
    subst (λ p. MemoryReads rows db (sample_step p db)) (sym e) (Reads-serve rows db)

pub step_write-sample :
    (q : Query) (vs : List Value) (s : Progress) (db : Store)
    → s ≡ ready (sql_of q) vs
    → MemoryWrites (effect q vs db) db (sample_step s db)
step_write-sample q vs s db e =
    subst (λ p. MemoryWrites (effect q vs db) db (sample_step p db)) (sym e)
      (subst (λ o. MemoryWrites (effect q vs db) db (perform_found o vs db))
        (sym (find_query-sql_of q)) (perform-Writes q vs db))

pub some≢none : {A : Type 0} {a : A} → some a ≢ none
some≢none h = cc

pub true≢false : true ≢ false
true≢false h = cc

abbrev pub memory_contract : Contract memory ⊥
memory_contract = record {
  view = λ d. d;
  progress = λ p. p;
  prepare_keeps = λ sql db. refl;
  prepare_ready = λ sql db s e. sym (some_inj e);
  prepare_fault = λ sql db e. absurd (some≢none e);
  bind_keeps = λ i v s db. refl;
  bind_ready = λ sql vs v s db e h. bind_ready-sample sql vs v s e;
  bind_fault = λ i v s db e. absurd (true≢false e);
  finalize_keeps = λ s db. refl;
  step_read = step_read-sample;
  step_next = step_next-sample;
  step_write = step_write-sample;
}
