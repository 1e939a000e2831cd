-- ===== src/Sqlite.antt =====
-- What model/dao/sqlitequeue.cpp uses of the SQLite C library, which is a parameter, and the sequences
-- of its calls that the program repeats. `Token` is SQLiteToken of model/dao/sqliteconnect.hpp.
use simple_task_queue.Common.{
  ℕ, zero, suc, ◌+◌, Bool, true, false, Option, none, some, String, List, [], ◌∷◌, Str, ℤ,
}
use simple_task_queue.Exec.{Result, ok, err, hang, Exec, pure, fail, continue, ◌>>=◌, ◌>>◌}

-- What sqlite3_bind_int and sqlite3_bind_text take.
pub data Value : Type 0 where
  int : ℤ → Value
  text : Str → Value

-- The current row: what sqlite3_column_int and sqlite3_column_text give at each column.
pub record Row : Type 0 where
  pub column_int : ℕ → ℤ
  pub column_text : ℕ → Str

-- sqlite3_step's SQLITE_ROW, SQLITE_DONE and the other codes.
pub data Outcome : Type 0 where
  row : Row → Outcome
  done error : Outcome

-- `Db` is the state of the library and its files, `Stmt` a prepared statement. A Boolean result
-- says that the code is SQLITE_OK. `rounds` is how often the model lets a loop over rows go round.
pub record Sqlite : Type 1 where
  pub Db : Type 0
  pub Stmt : Type 0
  pub open_db : Str → Db → Bool × Db
  pub close : Db → Db
  pub prepare : String → Db → Option Stmt × Db
  pub bind : ℕ → Value → Stmt → Db → Bool × Stmt × Db
  pub step : Stmt → Db → Outcome × Stmt × Db
  pub finalize : Stmt → Db → Db
  pub rounds : ℕ

-- `is_open` is whether `db` is not nullptr, and `stmt` is `none` where it is.
pub record Token (S : Sqlite) : Type 0 where
  pub db : S.Db
  pub is_open : Bool
  pub stmt : Option S.Stmt

module _ {S : Sqlite} where
  unfoldable pub prepared : ℕ → Token S → Option S.Stmt × S.Db → Result (Unit {0}) × Token S
  prepared code t (none, db) = (err code, record t { db = db; stmt = none })
  prepared code t (some s, db) = (ok tt, record t { db = db; stmt = some s })

  -- if (sqlite3_prepare_v2(m_token->db, sql, length, &m_token->stmt, NULL)) { ret = code; goto exit; }
  unfoldable pub prepare : String → ℕ → Exec (Token S) (Unit {0})
  unfolding prepared
  prepare sql code t = prepared code t (S.prepare sql t.db)

  unfoldable pub bound : ℕ → Token S → Bool × S.Stmt × S.Db → Result (Unit {0}) × Token S
  bound code t (true, s, db) = (ok tt, record t { db = db; stmt = some s })
  bound code t (false, s, db) = (err code, record t { db = db; stmt = some s })

  -- The library refuses a null statement.
  unfoldable pub bind_to : Option S.Stmt → ℕ → Value → ℕ → Exec (Token S) (Unit {0})
  unfolding bound
  bind_to none i v code t = (err code, t)
  bind_to (some s) i v code t = bound code t (S.bind i v s t.db)

  -- if (sqlite3_bind_...(m_token->stmt, i, v)) { ret = code; goto exit; }
  unfoldable pub bind : ℕ → Value → ℕ → Exec (Token S) (Unit {0})
  unfolding bind_to
  bind i v code t = bind_to t.stmt i v code t

  -- The parameters from the i-th on, one call for each.
  unfoldable pub bind_all : ℕ → List Value → ℕ → Exec (Token S) (Unit {0})
  bind_all i [] code = pure tt
  bind_all i (v ∷ vs) code = bind i v code >>= λ _. bind_all (i + 1) vs code

  unfoldable pub stepped : Token S → Outcome × S.Stmt × S.Db → Result Outcome × Token S
  stepped t (o, s, db) = (ok o, record t { db = db; stmt = some s })

  unfoldable pub step_of : Option S.Stmt → Exec (Token S) Outcome
  unfolding stepped
  step_of none t = (ok error, t)
  step_of (some s) t = stepped t (S.step s t.db)

  -- sqlite3_step(m_token->stmt)
  unfoldable pub step : Exec (Token S) Outcome
  unfolding step_of
  step t = step_of t.stmt t

  unfoldable pub finalized : Option S.Stmt → Token S → Token S
  finalized none t = t
  finalized (some s) t = record t { db = S.finalize s t.db; stmt = none }

  -- exit: sqlite3_finalize(m_token->stmt); m_token->stmt = nullptr; return ret;
  unfoldable pub finally : {A : Type 0} → Exec (Token S) A → Exec (Token S) A
  unfolding finalized
  finally m t = let (r, t') = m t in (r, finalized t'.stmt t')

  abbrev attempted : Result ℕ × Token S → Result ℕ × Token S
  attempted (err code, t) = (ok code, t)
  attempted (ok code, t) = (ok code, t)
  attempted (hang, t) = (hang, t)

  unfoldable pub expect_done : Outcome → ℕ → Exec (Token S) (Unit {0})
  expect_done (row r) code = fail code
  expect_done done code = pure tt
  expect_done error code = fail code

  -- Prepare, bind, and one step that must be SQLITE_DONE.
  unfoldable pub execute : String → List Value → ℕ → ℕ → Exec (Token S) (Unit {0})
  unfolding expect_done
  execute sql values code step_code = do
    prepare sql code
    bind_all 1 values code
    o ← step
    expect_done o step_code

  module _ {A : Type 0} (body : A → Row → Result A) (code : ℕ) where
    unfoldable pub on_outcome : (A → Exec (Token S) A) → A → Outcome → Exec (Token S) A
    on_outcome next a (row r) t = continue next (body a r, t)
    on_outcome next a done t = (ok a, t)
    on_outcome next a error t = (err code, t)

    -- while (1) { rc = sqlite3_step(stmt); ... }: `body` is what is done with a row, `a` the
    -- variables that it changes.
    unfoldable pub fetch_loop : ℕ → A → Exec (Token S) A
    unfolding on_outcome
    fetch_loop zero a t = (hang, t)
    fetch_loop (suc n) a t = continue (on_outcome (fetch_loop n) a) (step t)

  -- Prepare, bind, and the loop.
  unfoldable pub fetch :
      {A : Type 0} → String → List Value → (A → Row → Result A) → ℕ → A → Exec (Token S) A
  fetch sql values body code a = do
    prepare sql code
    bind_all 1 values code
    fetch_loop body code S.rounds a

  -- sqlite3_finalize(m_token->stmt); m_token->stmt = nullptr;
  unfoldable pub release : Exec (Token S) (Unit {0})
  unfolding finalized
  release t = (ok tt, finalized t.stmt t)

  -- The code that a function returned, as a value to test.
  unfoldable pub attempt : Exec (Token S) ℕ → Exec (Token S) ℕ
  attempt m t = attempted (m t)
