-- ===== src/Queue/DetailLaws.antt =====
-- model/dao/sqlitequeue.cpp: what taskDetails returns and changes, under the contract.
use simple_task_queue.Common.{
  ℕ, suc, ◌+◌, ◌<◌, ◌≡◌, refl, sym, ap, ◌∙◌, ◌≢◌, ◌⊎◌, inl, inr, false, not, ◌==◌, List, [], ◌∷◌, ℤ,
  to_int32, arith, length, subst,
}
use simple_task_queue.Task.{Task, empty_task}
use simple_task_queue.ErrMsg.{not_found, os_error}
use simple_task_queue.Exec.{ok, Ends-mono, Ends-continue, require, ok_inj, ◌>>=◌, pure}
use simple_task_queue.Sqlite.{Sqlite, Token, Row, int, fetch}
use simple_task_queue.Queue.Tables.{task_details, keep_task, details_sql, task_of_row}
use simple_task_queue.Queue.Contract.{
  Contract, Store, Entry, Table, table_name, entries, details_of, with_id, AllShow, Shows,
}
use simple_task_queue.Queue.Statements.{Meets, fold_rows, finally-Ends, Failed}
use simple_task_queue.Queue.Fetch.{Fetched}
use simple_task_queue.Queue.TableLaws.{task_of_entry}
use simple_task_queue.Queue.ReadLaws.{fetch_all-Ends}

-- The variable `out` after the rows.
abbrev pub last_task : Task → List Entry → Task
last_task out [] = out
last_task out (e ∷ es) = last_task (task_of_entry e) es

pub task_of_row-Shows : (r : Row) (e : Entry) → Shows r e → task_of_row r ≡ task_of_entry e
task_of_row-Shows r e h = ground arith

keep_task-fold :
    (n : ℕ) (out : Task) (es : List Entry) (rows : List Row)
    → AllShow rows es
    → fold_rows keep_task (n, out) rows ≡ ok (n + length es, last_task out es)
keep_task-fold n out [] [] h = let e : n + 0 ≡ n = omega arith in rw e
keep_task-fold n out (e ∷ es) [] h = absurd h
keep_task-fold n out [] (r ∷ rows) h = absurd h
keep_task-fold n out (e ∷ es) (r ∷ rows) h =
    let same : task_of_row r ≡ task_of_entry e = task_of_row-Shows r e h.0 in
    let count : suc n + length es ≡ n + suc (length es) = omega arith in
    ap (λ t. fold_rows keep_task (suc n, t) rows) same
    ∙ keep_task-fold (suc n) (task_of_entry e) es rows h.1
    ∙ ap (λ k. ok (k, last_task (task_of_entry e) es)) count

length-AllShow : (es : List Entry) (rows : List Row) → AllShow rows es → length rows ≡ length es
length-AllShow [] [] h = refl
length-AllShow (n ∷ ns) [] h = absurd h
length-AllShow [] (r ∷ rows) h = absurd h
length-AllShow (n ∷ ns) (r ∷ rows) h = ap suc (length-AllShow ns rows h.1)

length-with_id-le : (id : ℤ) (es : List Entry) → length (with_id id es) < suc (length es)
length-with_id-le id [] = omega arith
length-with_id-le id (e ∷ es) = ground (arith, length-with_id-le id es)

-- The rows of `tb` with the ID, narrowed to an `int`.
abbrev pub hits : Table → ℤ → Store → List Entry
hits tb id v = with_id (to_int32 id) (entries tb v)

abbrev pub NoDetails : Type 0 → List Entry → Store → ℕ → Store → Type 0
NoDetails Fault es v c w = ((c ≡ os_error) × Fault ⊎ ((c ≡ not_found) × (es ≡ []))) × (w ≡ v)

abbrev pub HasDetails : List Entry → Store → Task → Store → Type 0
HasDetails es v out w = (es ≢ []) × (out ≡ last_task empty_task es) × (w ≡ v)

module _ {S : Sqlite} {Fault : Type 0} (K : Contract S Fault) where
  open K use {view}

  counted-Meets :
      (es : List Entry) (v : Store) (t : Token S)
      → view t.db ≡ v
      → Meets K
          (NoDetails Fault es v)
          (HasDetails es v)
          ((require (not (length es == 0)) not_found >>= λ _. pure (last_task empty_task es)) t)
  counted-Meets [] v t same = (inr (refl, refl), same)
  counted-Meets (h ∷ hs) v t same =
      let e : (suc (length hs) == 0) ≡ false = ground arith in rw e ((λ d. cc), refl, same)

  -- taskDetails gives the task of the last row with the ID, or says NOT_FOUND where there is no
  -- such row, or OS_ERROR where SQLite fails; it changes nothing. The loop has more rounds than the
  -- table has rows.
  pub task_details-Meets :
      (tb : Table) (id : ℤ) (t : Token S)
      → length (entries tb (view t.db)) < S.rounds
      → Meets K
          (NoDetails Fault (hits tb id (view t.db)) (view t.db))
          (HasDetails (hits tb id (view t.db)) (view t.db))
          (task_details (table_name tb) id t)
  unfolding task_details
  task_details-Meets tb id t h =
      let v : Store = view t.db in
      let es : List Entry = hits tb id v in
      finally-Ends K (NoDetails Fault es v) (HasDetails es v) _ t (
        Ends-continue (λ c t'. NoDetails Fault es v c (view t'.db))
          (Fetched K keep_task (0, empty_task) (details_of tb) (int (to_int32 id) ∷ []) v)
          (λ out t'. HasDetails es v out (view t'.db))
          (λ found. require (not (found.0 == 0)) not_found >>= λ _. pure found.1)
          (fetch (details_sql (table_name tb)) (int (to_int32 id) ∷ []) keep_task os_error
            (0, empty_task) t)
          (Ends-mono (Failed K os_error v) (λ c t'. NoDetails Fault es v c (view t'.db))
            (Fetched K keep_task (0, empty_task) (details_of tb) (int (to_int32 id) ∷ []) v)
            (Fetched K keep_task (0, empty_task) (details_of tb) (int (to_int32 id) ∷ []) v) _
            (fetch_all-Ends K (details_of tb) (int (to_int32 id) ∷ []) keep_task os_error
              (0, empty_task) t tt (λ b w. ((suc b.0, task_of_row w), refl))
              (λ rows same. omega (
                arith,
                length-AllShow es rows same,
                length-with_id-le (to_int32 id) (entries tb v),
              ))
              (omega arith))
            (λ c t' f. (inl (f.0, f.2), f.1)) (λ _ _ f. f))
          (λ found t' (rows, same, e, keeps).
            let count : 0 + length es ≡ length es = omega arith in
            let known : (length es, last_task empty_task es) ≡ found = ok_inj (
              sym (ap (λ k. ok (k, last_task empty_task es)) count)
              ∙ sym (keep_task-fold 0 empty_task es rows same)
              ∙ e) in
            subst
              (λ (p : ℕ × Task).
                Meets K (NoDetails Fault es v) (HasDetails es v)
                  ((require (not (p.0 == 0)) not_found >>= λ _. pure p.1) t'))
              known (counted-Meets es v t' keeps)))
