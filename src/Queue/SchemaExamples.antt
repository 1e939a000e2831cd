-- ===== src/Queue/SchemaExamples.antt =====
-- A new database, on which the lemma about connectToDB is tried.
use simple_task_queue.Common.{◌≡◌, refl, true, false, some, none, codes}
use simple_task_queue.Exec.{ok}
use simple_task_queue.Sqlite.{
  Sqlite, Token, done, attempt, finally, fetch, prepare, bind_all, bind, fetch_loop, step, release,
  execute,
}
use simple_task_queue.Queue.Schema.{connect_to_db, verify_all, verify_table, verify_id}
use simple_task_queue.Queue.SchemaLaws.{Agree, connect_to_db-Agree}

-- A library whose database has no tables, and with which every statement works.
abbrev pub no_tables : Sqlite
no_tables = record {
  Db = Unit {0};
  Stmt = Unit {0};
  open_db = λ path db. (true, db);
  close = λ db. db;
  prepare = λ sql db. (some tt, db);
  bind = λ i v s db. (true, s, db);
  step = λ s db. (done, s, db);
  finalize = λ s db. db;
  rounds = 10;
}

abbrev pub closed_token : Token no_tables
closed_token = record { db = tt; is_open = false; stmt = none }

abbrev opened_token : Token no_tables
opened_token = record { db = tt; is_open = true; stmt = none }

pub accepted : connect_to_db (codes "/srv/a.db") closed_token ≡ (ok tt, opened_token)
unfolding connect_to_db verify_all attempt verify_table finally fetch prepare bind_all bind
    fetch_loop step release execute verify_id
accepted = refl

connect_to_db-Agree_example : (true ≡ true) × Agree opened_token opened_token
connect_to_db-Agree_example =
    connect_to_db-Agree (codes "/srv/a.db") closed_token opened_token accepted
