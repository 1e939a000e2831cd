-- ===== src/Queue/Fetch.antt =====
-- The loop over the rows of a query, under the contract: what it has read where it ends.
use simple_task_queue.Common.{
  ℕ, zero, suc, ◌<◌, ◌≡◌, refl, ap, ◌⊎◌, inl, inr, ◌≢◌, Option, none, some, List, ◌∷◌, arith,
  length, subst,
}
use simple_task_queue.Exec.{Result, ok, err, hang, Ends, Ends-mono, continue}
use simple_task_queue.Sqlite.{
  Sqlite, Token, Value, Row, Outcome, row, done, error, step, stepped, step_of, fetch_loop, fetch,
  on_outcome,
}
use simple_task_queue.Queue.Contract.{
  Contract, Store, Query, sql_of, Answer, IsRead, ready, reading, Reads,
}
use simple_task_queue.Queue.Statements.{fold_rows, IsAt, IsReady, bound_rule}

module _ {S : Sqlite} {Fault : Type 0} (K : Contract S Fault) where
  open K use {view, progress}

  module _ {A : Type 0} (body : A → Row → Result A) (code : ℕ) (v : Store) where
    -- `total` is what the rows that are left make of the variables.
    abbrev LoopFailed : Result A → ℕ → Token S → Type 0
    LoopFailed total c t = ((c ≡ code) × Fault ⊎ (total ≡ err c)) × (view t.db ≡ v)

    abbrev LoopEnded : Result A → A → Token S → Type 0
    LoopEnded total a t = (total ≡ ok a) × (view t.db ≡ v)

    -- The loop from a statement that has rows left.
    abbrev LoopRuns : ℕ → List Row → A → Token S → Type 0
    LoopRuns n rows a t =
        Ends (LoopFailed (fold_rows body a rows)) (LoopEnded (fold_rows body a rows))
          (fetch_loop body code n a t)

    row-Ends :
        (n : ℕ) (a : A) (r : Row) (rest : List Row) (t : Token S) (b : Result A)
        → body a r ≡ b
        → b ≢ hang
        → view t.db ≡ v
        → ((a' : A) → LoopRuns n rest a' t)
        → Ends
            (LoopFailed (fold_rows body a (r ∷ rest)))
            (LoopEnded (fold_rows body a (r ∷ rest)))
            (continue (fetch_loop body code n) (b, t))
    row-Ends n a r rest t (ok a') e runs same ih = rw (e, fold_rows) (ih a')
    row-Ends n a r rest t (err c) e runs same ih = (inr (rw (e, fold_rows)), same)
    row-Ends n a r rest t hang e runs same ih = absurd (runs refl)

    -- A step that gives what `rows` allows, and the rest of the loop by `ih`.
    Reads-Ends :
        (n : ℕ) (rows : List Row) (a : A) (t : Token S) (r : Outcome × S.Stmt × S.Db)
        → ((b : A) (w : Row) → body b w ≢ hang)
        → Reads Fault view progress rows v r
        → ((rest : List Row) (a' : A) (t' : Token S)
            → length rest < length rows
            → IsAt K t'.stmt (reading rest)
            → view t'.db ≡ v
            → LoopRuns n rest a' t')
        → Ends
            (LoopFailed (fold_rows body a rows))
            (LoopEnded (fold_rows body a rows))
            (continue (on_outcome body code (fetch_loop body code n) a) (stepped t r))
    unfolding stepped on_outcome
    Reads-Ends n rows a t (row w, s, db) runs (rest, e, at, same) ih = rw e (
        row-Ends n a w rest (record t { db = db; stmt = some s }) (body a w) refl (runs a w) same
          (λ a'.
            ih rest a' (record t { db = db; stmt = some s }) (omega (arith, ap length e)) at same))
    Reads-Ends n rows a t (done, s, db) runs (e, same) ih = rw e (refl, same)
    Reads-Ends n rows a t (error, s, db) runs (same, fault) ih = (inl (refl, fault), same)

    loop_from :
        (n : ℕ) (rows : List Row) (a : A) (t : Token S) (o : Option S.Stmt)
        → ((b : A) (w : Row) → body b w ≢ hang)
        → length rows < suc n
        → IsAt K o (reading rows)
        → view t.db ≡ v
        → Ends
            (LoopFailed (fold_rows body a rows))
            (LoopEnded (fold_rows body a rows))
            (continue (on_outcome body code (fetch_loop body code n) a) (step_of o t))
    unfolding step_of fetch_loop step
    loop_from n rows a t none runs h at same = absurd at
    loop_from zero rows a t (some s) runs h at same =
        Reads-Ends zero rows a t (S.step s t.db) runs
          (subst (λ w. Reads Fault view progress rows w (S.step s t.db)) same
            (K.step_next rows s t.db at))
          (λ rest a' t' l at' same'. absurd (omega arith))
    loop_from (suc n) rows a t (some s) runs h at same =
        Reads-Ends (suc n) rows a t (S.step s t.db) runs
          (subst (λ w. Reads Fault view progress rows w (S.step s t.db)) same
            (K.step_next rows s t.db at))
          (λ rest a' t' l at' same'. loop_from n rest a' t' t'.stmt runs (omega arith) at' same')

    loop_runs :
        (n : ℕ) (rows : List Row) (a : A) (t : Token S)
        → ((b : A) (w : Row) → body b w ≢ hang)
        → length rows < n
        → IsAt K t.stmt (reading rows)
        → view t.db ≡ v
        → LoopRuns n rows a t
    unfolding fetch_loop step
    loop_runs zero rows a t runs h at same = absurd (omega arith)
    loop_runs (suc n) rows a t runs h at same = loop_from n rows a t t.stmt runs h at same

  -- What fetch makes of the rows, and that it changes nothing.
  abbrev pub Fetched :
      {A : Type 0} → (A → Row → Result A) → A → Query → List Value → Store → A → Token S → Type 0
  Fetched body a q vs v a' t =
      (rows : List Row) × Answer q vs v rows × (fold_rows body a rows ≡ ok a') × (view t.db ≡ v)

  abbrev pub NotFetched :
      {A : Type 0}
      → (A → Row → Result A)
      → A
      → Query
      → List Value
      → ℕ
      → Store
      → ℕ
      → Token S
      → Type 0
  NotFetched body a q vs code v c t =
      ((c ≡ code) × Fault
        ⊎ ((rows : List Row) × Answer q vs v rows × (fold_rows body a rows ≡ err c)))
      × (view t.db ≡ v)

  module _ {A : Type 0} (q : Query) (vs : List Value) (body : A → Row → Result A) (code : ℕ)
      (a : A) where
    read-Ends :
        (n : ℕ) (v : Store) (t : Token S) (o : Option S.Stmt)
        → IsRead q
        → ((b : A) (w : Row) → body b w ≢ hang)
        → ((rows : List Row) → Answer q vs v rows → length rows < suc n)
        → IsAt K o (ready (sql_of q) vs)
        → view t.db ≡ v
        → Ends
            (NotFetched body a q vs code v)
            (Fetched body a q vs v)
            (continue (on_outcome body code (fetch_loop body code n) a) (step_of o t))
    unfolding step_of
    read-Ends n v t none is_read runs enough at same = absurd at
    read-Ends n v t (some s) is_read runs enough at same =
        let first = K.step_read q vs s t.db is_read at in
        let rows : List Row = first.0 in
        let answer : Answer q vs v rows = subst (λ w. Answer q vs w rows) same first.1 in
        let bound : length rows < suc n = enough rows answer in
        Ends-mono (LoopFailed body code v (fold_rows body a rows)) (NotFetched body a q vs code v)
          (LoopEnded body code v (fold_rows body a rows)) (Fetched body a q vs v)
          (continue (on_outcome body code (fetch_loop body code n) a) (stepped t (S.step s t.db)))
          (Reads-Ends body code v n rows a t (S.step s t.db) runs
            (subst (λ w. Reads Fault view progress rows w (S.step s t.db)) same first.2)
            (λ rest a' t' l at' same'.
              loop_runs body code v n rest a' t' runs (omega arith) at' same'))
          (λ c t' f. (elim f.0 [ inl e ↦ inl e | inr e ↦ inr (rows, answer, e) ], f.1))
          (λ a' t' e. (rows, answer, e.0, e.1))

    fetch_loop-Ends :
        (n : ℕ) (v : Store) (t : Token S)
        → IsRead q
        → ((b : A) (w : Row) → body b w ≢ hang)
        → ((rows : List Row) → Answer q vs v rows → length rows < n)
        → 0 < n
        → IsReady K (sql_of q) vs v t
        → Ends (NotFetched body a q vs code v) (Fetched body a q vs v) (fetch_loop body code n a t)
    unfolding fetch_loop step
    fetch_loop-Ends zero v t is_read runs enough h r = absurd (omega arith)
    fetch_loop-Ends (suc n) v t is_read runs enough h r =
        read-Ends n v t t.stmt is_read runs enough r.0 r.1

    -- fetch folds `body` over an answer of the query and changes nothing, or it fails and changes
    -- nothing; it does not hang if the rounds are more than the rows.
    pub fetch-Ends :
        (t : Token S)
        → IsRead q
        → ((b : A) (w : Row) → body b w ≢ hang)
        → ((rows : List Row) → Answer q vs (view t.db) rows → length rows < S.rounds)
        → 0 < S.rounds
        → Ends
            (NotFetched body a q vs code (view t.db))
            (Fetched body a q vs (view t.db))
            (fetch (sql_of q) vs body code a t)
    unfolding fetch
    fetch-Ends t is_read runs enough some_round =
        bound_rule K (NotFetched body a q vs code (view t.db)) (Fetched body a q vs (view t.db))
          (sql_of q) vs code (fetch_loop body code S.rounds a) t (λ c t' h. (inl (h.0, h.2), h.1))
          (λ t' h. fetch_loop-Ends S.rounds (view t.db) t' is_read runs enough some_round h)
