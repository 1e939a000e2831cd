-- ===== src/Queue/SchemaLaws.antt =====
-- model/dao/sqlitequeue.cpp: connectToDB, and when a database is accepted.
use simple_task_queue.Common.{
  ℕ, ◌≡◌, ◌≢◌, refl, sym, ap, ◌∙◌, Bool, true, false, not, ◌||◌, ◌==◌, Str, if◌then◌else◌, arith,
}
use simple_task_queue.Exec.{Result, ok, err, hang, Exec, continue}
use simple_task_queue.Sqlite.{Sqlite, Token, attempt}
use simple_task_queue.Queue.Schema.{
  verify_table, verify_id, connect_to_db, after_open, verify_all, after_pending, after_done,
  after_id, compare_codes, close_failed,
}

all_equal :
    (p d i : ℕ) → ((not (p == d) || not (p == i)) || not (d == i)) ≡ false → (p ≡ d) × (p ≡ i)
all_equal p d i h = ground arith

not_one : (p : ℕ) → (p == 1) ≡ false → p ≢ 1
not_one p h = ground arith

module _ {S : Sqlite} where
  -- An action that succeeded.
  abbrev Accepts : Result (Unit {0}) × Token S → Token S → Type 0
  Accepts r t = r ≡ (ok tt, t)

  failed : (code : ℕ) (t u : Token S) → Accepts (err code, t) u → ⊥
  failed code t u h = cc

  stuck : (t u : Token S) → Accepts (hang, t) u → ⊥
  stuck t u h = cc

  same_state : (t u : Token S) → Accepts (ok tt, t) u → t ≡ u
  same_state t u h = cc

  -- A test that closes the database has not been true.
  passed :
      (b : Bool) (m : Exec (Token S) (Unit {0})) (t u : Token S)
      → Accepts ((if b then close_failed else m) t) u
      → (b ≡ false) × Accepts (m t) u
  unfolding close_failed
  passed true m t u h = absurd (failed 1 _ u h)
  passed false m t u h = (refl, h)

  -- A call that was followed by another has given a code.
  called :
      (f : ℕ → Exec (Token S) (Unit {0})) (r : Result ℕ × Token S) (u : Token S)
      → Accepts (continue f r) u
      → (code : ℕ) × (t : Token S) × (r ≡ (ok code, t)) × Accepts (f code t) u
  called f (ok code, t) u h = (code, t, refl, h)
  called f (err code, t) u h = absurd (failed code t u h)
  called f (hang, t) u h = absurd (stuck t u h)

  compare_codes-Accepts :
      (p d i : ℕ) (t u : Token S) → Accepts (compare_codes p d i t) u → (p ≡ d) × (p ≡ i) × (t ≡ u)
  unfolding compare_codes
  compare_codes-Accepts p d i t u h =
      let (test, done) =
        passed ((not (p == d) || not (p == i)) || not (d == i)) (λ t. (ok tt, t)) t u h in
      let (first, second) = all_equal p d i test in (first, second, same_state t u done)

  -- The three functions of connectToDB, run one after the other from `t` to `u`, gave one code, and it is
  -- not 1, the code of a failure.
  abbrev pub Agree : Token S → Token S → Type 0
  Agree t u =
      (code : ℕ) × (t1 : Token S) × (t2 : Token S) × (code ≢ 1)
      × (attempt (verify_table "pending") t ≡ (ok code, t1))
      × (attempt (verify_table "done") t1 ≡ (ok code, t2))
      × (attempt verify_id t2 ≡ (ok code, u))

  verify_all-Agree : (t u : Token S) → Accepts (verify_all t) u → Agree t u
  unfolding verify_all after_pending after_done after_id
  verify_all-Agree t u h =
      let (p, t1, first, h1) = called after_pending (attempt (verify_table "pending") t) u h in
      let (fine, h2) =
        passed (p == 1) (λ t. continue (after_done p) (attempt (verify_table "done") t)) t1 u h1 in
      let (d, t2, second, h3) = called (after_done p) (attempt (verify_table "done") t1) u h2 in
      let (_, h4) = passed (p == 1) (λ t. continue (after_id p d) (attempt verify_id t)) t2 u h3 in
      let (i, t3, third, h5) = called (after_id p d) (attempt verify_id t2) u h4 in
      let (_, h6) = passed (p == 1) (compare_codes p d i) t3 u h5 in
      let (same_d, same_i, same_t) = compare_codes-Accepts p d i t3 u h6 in
      (
        p,
        t1,
        t2,
        not_one p fine,
        first,
        second ∙ ap (λ c. (ok c, t2)) (sym same_d),
        third ∙ ap (λ c. (ok c, t3)) (sym same_i) ∙ ap (λ t. (ok p, t)) same_t,
      )

  opened-Agree :
      (t u : Token S) (r : Bool × S.Db)
      → Accepts (after_open t r) u
      → (r.0 ≡ true) × Agree (record t { db = r.1; is_open = true }) u
  unfolding after_open
  opened-Agree t u (true, db) h = (refl, verify_all-Agree _ u h)
  opened-Agree t u (false, db) h = absurd (failed 1 _ u h)

  -- connectToDB accepts a database only if it could be opened and verifyTable of pending, verifyTable of done
  -- and verifyID, run in this order, all gave the same code, which is not that of a failure: the three tables were
  -- all there, or all have been made.
  pub connect_to_db-Agree :
      (path : Str) (t u : Token S)
      → connect_to_db path t ≡ (ok tt, u)
      → ((S.open_db path t.db).0 ≡ true)
        × Agree (record t { db = (S.open_db path t.db).1; is_open = true }) u
  unfolding connect_to_db
  connect_to_db-Agree path t u h = opened-Agree t u (S.open_db path t.db) h
