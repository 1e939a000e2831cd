-- ===== src/Queue/RoundLaws.antt =====
-- model/dao/sqlitequeue.cpp: the statement of mainLoopInit, under the contract.
use simple_task_queue.Common.{◌≡◌, Option, none, some, List, [], ◌∷◌, take, subst}
use simple_task_queue.Exec.{Ends-mono, Ends-continue}
use simple_task_queue.Sqlite.{
  Sqlite, Token, Row, row, done, error, Outcome, prepare, step, step_of, stepped,
}
use simple_task_queue.Queue.Tables.{first_task, first_sql}
use simple_task_queue.Queue.Contract.{
  Contract, Store, Entry, Shows, AllShow, Reads, ready, first_pending,
}
use simple_task_queue.Queue.Statements.{Meets, Failed, IsReady, IsAt, prepare-Ends, finally-Ends}

-- What the step of first_task says of the pending tasks.
abbrev pub FirstIs : Type 0 → Outcome → List Entry → Type 0
FirstIs Fault (row r) (e ∷ es) = Shows r e
FirstIs Fault (row r) [] = ⊥
FirstIs Fault done [] = Unit {0}
FirstIs Fault done (e ∷ es) = ⊥
FirstIs Fault error es = Fault

first-row :
    (Fault : Type 0) (r : Row) (rest : List Row) (es : List Entry)
    → AllShow (r ∷ rest) (take 1 es)
    → FirstIs Fault (row r) es
unfolding take
first-row Fault r rest [] h = absurd h
first-row Fault r rest (e ∷ es) h = h.0

first-done : (Fault : Type 0) (es : List Entry) → AllShow [] (take 1 es) → FirstIs Fault done es
unfolding take
first-done Fault [] h = tt
first-done Fault (e ∷ es) h = absurd h

module _ {S : Sqlite} {Fault : Type 0} (K : Contract S Fault) where
  open K use {view, progress}

  abbrev pub Found : Store → Outcome → Store → Type 0
  Found v o w = (w ≡ v) × FirstIs Fault o v.pending

  Found-Ends :
      (rows : List Row) (v : Store) (t : Token S) (r : Outcome × S.Stmt × S.Db)
      → AllShow rows (take 1 v.pending)
      → Reads Fault view progress rows v r
      → Meets K (λ c w. Fault × (w ≡ v)) (Found v) (stepped t r)
  unfolding stepped
  Found-Ends rows v t (row r, s, db) shows (rest, e, at, same) =
      (same, first-row Fault r rest v.pending (subst (λ rs. AllShow rs (take 1 v.pending)) e shows))
  Found-Ends rows v t (done, s, db) shows (e, same) =
      (same, first-done Fault v.pending (subst (λ rs. AllShow rs (take 1 v.pending)) e shows))
  Found-Ends rows v t (error, s, db) shows (same, fault) = (same, fault)

  step_first-Ends :
      (v : Store) (t : Token S) (o : Option S.Stmt)
      → IsAt K o (ready first_sql [])
      → view t.db ≡ v
      → Meets K (λ c w. Fault × (w ≡ v)) (Found v) (step_of o t)
  unfolding step_of
  step_first-Ends v t none at same = absurd at
  step_first-Ends v t (some s) at same =
      let (rows, shows, reads) = K.step_read first_pending [] s t.db tt at in
      Found-Ends rows v t (S.step s t.db)
        (subst (λ (u : Store). AllShow rows (take 1 u.pending)) same shows)
        (subst (λ u. Reads Fault view progress rows u (S.step s t.db)) same reads)

  -- The statement of mainLoopInit gives a row of the first pending task, or says that there is no
  -- row only where none is pending, or fails with SQLite; it changes no table.
  pub first_task-Meets :
      (t : Token S) → Meets K (λ c w. Fault × (w ≡ view t.db)) (Found (view t.db)) (first_task t)
  unfolding first_task step
  first_task-Meets t =
      finally-Ends K (λ c w. Fault × (w ≡ view t.db)) (Found (view t.db)) _ t
        (Ends-continue (λ c t'. Fault × (view t'.db ≡ view t.db))
          (λ _. IsReady K first_sql [] (view t.db)) (λ o t'. Found (view t.db) o (view t'.db))
          (λ _. step) (prepare first_sql 1 t)
          (Ends-mono {A = Unit {0}} (Failed K 1 (view t.db))
            (λ c t'. Fault × (view t'.db ≡ view t.db)) _ _ (prepare first_sql 1 t)
            (prepare-Ends K first_sql 1 t) (λ c t' f. (f.2, f.1)) (λ _ _ h. h))
          (λ _ t' h. step_first-Ends (view t.db) t' t'.stmt h.0 h.1))
