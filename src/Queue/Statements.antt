-- ===== src/Queue/Statements.antt =====
-- model/dao/sqlitequeue.cpp: how the sequences of SQLite calls end, under the contract, and what they
-- leave in the tables.
use simple_task_queue.Common.{
  ℕ, ◌+◌, ◌≡◌, refl, sym, ap, ◌∙◌, ◌⊎◌, inl, inr, ◌≢◌, Bool, true, false, Option, none, some,
  String, List, [], ◌∷◌, ◌++◌, arith, length, append_assoc, append-nil, length-append, subst,
}
use simple_task_queue.Exec.{
  Result, ok, err, hang, Exec, Ends, Ends-continue, Ends-mono, continue, ◌>>=◌, ◌>>◌,
}
use simple_task_queue.Sqlite.{
  Sqlite, Token, Value, Row, Outcome, row, done, error, prepared, prepare, bound, bind_to, bind,
  bind_all, step, stepped, step_of, execute, expect_done, finalized, finally,
}
use simple_task_queue.Queue.Contract.{
  Contract, Store, Query, sql_of, effect, Verdict, changes, refuses, silent, ready, Writes,
  Progress,
}

-- What is done with the rows of an answer.
abbrev pub fold_rows : {A : Type 0} → (A → Row → Result A) → A → List Row → Result A
fold_rows body a [] = ok a
fold_rows body a (r ∷ rs) = elim (body a r) [
  | ok a' ↦ fold_rows body a' rs
  | err c ↦ err c
  | hang ↦ hang
]

module _ {S : Sqlite} {Fault : Type 0} (K : Contract S Fault) where
  open K use {view, progress}

  -- A postcondition that speaks of the contents of the tables.
  abbrev pub Meets :
      {A : Type 0} → (ℕ → Store → Type 0) → (A → Store → Type 0) → Result A × Token S → Type 0
  Meets E P = Ends (λ c t. E c (view t.db)) (λ a t. P a (view t.db))

  abbrev pub IsAt : Option S.Stmt → Progress → Type 0
  IsAt none p = ⊥
  IsAt (some s) p = progress s ≡ p

  abbrev pub IsReady : String → List Value → Store → Token S → Type 0
  IsReady sql vs v t = IsAt t.stmt (ready sql vs) × (view t.db ≡ v)

  -- A call failed, with this code, and nothing was changed.
  abbrev pub Failed : ℕ → Store → ℕ → Token S → Type 0
  Failed code v c t = (c ≡ code) × (view t.db ≡ v) × Fault

  prepared-Ends :
      (sql : String) (code : ℕ) (v : Store) (t : Token S) (r : Option S.Stmt × S.Db)
      → view r.1 ≡ v
      → ((s : S.Stmt) → r.0 ≡ some s → progress s ≡ ready sql [])
      → (r.0 ≡ none → Fault)
      → Ends (Failed code v) (λ _. IsReady sql [] v) (prepared code t r)
  unfolding prepared
  prepared-Ends sql code v t (none, db) same is_ready fault = (refl, same, fault refl)
  prepared-Ends sql code v t (some s, db) same is_ready fault = (is_ready s refl, same)

  pub prepare-Ends :
      (sql : String) (code : ℕ) (t : Token S)
      → Ends (Failed code (view t.db)) (λ _. IsReady sql [] (view t.db)) (prepare sql code t)
  unfolding prepare
  prepare-Ends sql code t =
      prepared-Ends sql code (view t.db) t (S.prepare sql t.db) (K.prepare_keeps sql t.db)
        (K.prepare_ready sql t.db) (K.prepare_fault sql t.db)

  bound-Ends :
      (sql : String) (vs : List Value) (code : ℕ) (v : Store) (t : Token S)
      (r : Bool × S.Stmt × S.Db)
      → view r.2 ≡ v
      → (r.0 ≡ true → progress r.1 ≡ ready sql vs)
      → (r.0 ≡ false → Fault)
      → Ends (Failed code v) (λ _. IsReady sql vs v) (bound code t r)
  unfolding bound
  bound-Ends sql vs code v t (true, s, db) same is_ready fault = (is_ready refl, same)
  bound-Ends sql vs code v t (false, s, db) same is_ready fault = (refl, same, fault refl)

  bind_to-Ends :
      (sql : String) (vs : List Value) (w : Value) (code : ℕ) (v : Store) (t : Token S)
      (o : Option S.Stmt)
      → IsAt o (ready sql vs)
      → view t.db ≡ v
      → Ends
          (Failed code v)
          (λ _. IsReady sql (vs ++ w ∷ []) v)
          (bind_to o (length vs + 1) w code t)
  unfolding bind_to
  bind_to-Ends sql vs w code v t none at same = absurd at
  bind_to-Ends sql vs w code v t (some s) at same =
      bound-Ends sql (vs ++ w ∷ []) code v t (S.bind (length vs + 1) w s t.db)
        (K.bind_keeps (length vs + 1) w s t.db ∙ same) (K.bind_ready sql vs w s t.db at)
        (K.bind_fault (length vs + 1) w s t.db)

  bind_all-Ends :
      (sql : String) (vs ws : List Value) (code : ℕ) (v : Store) (t : Token S)
      → IsReady sql vs v t
      → Ends (Failed code v) (λ _. IsReady sql (vs ++ ws) v) (bind_all (length vs + 1) ws code t)
  unfolding bind_all bind
  bind_all-Ends sql vs [] code v t h = rw append-nil h
  bind_all-Ends sql vs (w ∷ ws) code v t h =
      Ends-continue (Failed code v) (λ _. IsReady sql (vs ++ w ∷ []) v)
        (λ _. IsReady sql (vs ++ w ∷ ws) v) (λ _. bind_all (length vs + 1 + 1) ws code)
        (bind_to t.stmt (length vs + 1) w code t) (bind_to-Ends sql vs w code v t t.stmt h.0 h.1)
        (λ _ t' h'.
          let e : length (vs ++ w ∷ []) + 1 ≡ length vs + 1 + 1 =
            omega (arith, length-append vs (w ∷ [])) in
          rw e at (rw append_assoc at (bind_all-Ends sql (vs ++ w ∷ []) ws code v t' h')))

  -- What follows preparing and binding starts from a statement with all its values.
  pub bound_rule :
      {B : Type 0} (E : ℕ → Token S → Type 0) (Q : B → Token S → Type 0) (sql : String)
      (ws : List Value) (code : ℕ) (next : Exec (Token S) B) (t : Token S)
      → ((c : ℕ) (t' : Token S) → Failed code (view t.db) c t' → E c t')
      → ((t' : Token S) → IsReady sql ws (view t.db) t' → Ends E Q (next t'))
      → Ends E Q ((prepare sql code >> (bind_all 1 ws code >> next)) t)
  bound_rule E Q sql ws code next t weaken rest =
      Ends-continue E (λ _. IsReady sql [] (view t.db)) Q (λ _. bind_all 1 ws code >> next)
        (prepare sql code t)
        (Ends-mono (Failed code (view t.db)) E _ _ (prepare sql code t) (prepare-Ends sql code t)
          weaken (λ _ _ h. h))
        (λ _ t' h.
          Ends-continue E (λ _. IsReady sql ws (view t.db)) Q (λ _. next) (bind_all 1 ws code t')
            (Ends-mono (Failed code (view t.db)) E _ _ (bind_all 1 ws code t')
              (bind_all-Ends sql [] ws code (view t.db) t' h) weaken (λ _ _ h'. h'))
            (λ _ t'' h''. rest t'' h''))

  -- Why a statement that changes the tables was not done.
  abbrev NotDone : Verdict → ℕ → Store → ℕ → Token S → Type 0
  NotDone e code v c t = (c ≡ code) × (view t.db ≡ v) × (Fault ⊎ (e ≡ refuses))

  verdict-Ends :
      (e : Verdict) (v : Store) (code : ℕ) (t : Token S) (r : Outcome × S.Stmt × S.Db)
      → e ≢ silent
      → Writes Fault view progress e v r
      → Ends
          (NotDone e code v)
          (λ _ t'. e ≡ changes (view t'.db))
          (continue (λ o. expect_done o code) (stepped t r))
  unfolding expect_done stepped
  verdict-Ends (changes w) v code t (row r, s, db) told h = absurd h
  verdict-Ends (changes w) v code t (done, s, db) told h = ap changes (sym h)
  verdict-Ends (changes w) v code t (error, s, db) told h = (refl, h.0, inl h.1)
  verdict-Ends refuses v code t (row r, s, db) told h = absurd h
  verdict-Ends refuses v code t (done, s, db) told h = absurd h
  verdict-Ends refuses v code t (error, s, db) told h = (refl, h, inr refl)
  verdict-Ends silent v code t r told h = absurd (told refl)

  -- A statement that has been bound and that changes the tables does so in one step, or fails.
  write-Ends :
      (q : Query) (vs : List Value) (v : Store) (code : ℕ) (t : Token S) (o : Option S.Stmt)
      → IsAt o (ready (sql_of q) vs)
      → view t.db ≡ v
      → (effect q vs v ≢ silent)
      → Ends
          (NotDone (effect q vs v) code v)
          (λ _ t'. effect q vs v ≡ changes (view t'.db))
          (continue (λ out. expect_done out code) (step_of o t))
  unfolding step_of
  write-Ends q vs v code t none at same told = absurd at
  write-Ends q vs v code t (some s) at same told =
      verdict-Ends (effect q vs v) v code t (S.step s t.db) told (
        subst (λ w. Writes Fault view progress (effect q vs w) w (S.step s t.db)) same
          (K.step_write q vs s t.db at))

  abbrev pub Refused : Verdict → ℕ → ℕ → Store → ℕ → Token S → Type 0
  Refused e code step_code v c t =
      ((c ≡ code) ⊎ (c ≡ step_code)) × (view t.db ≡ v) × (Fault ⊎ (e ≡ refuses))

  -- execute makes its change or fails with one of its codes and makes none.
  pub execute-Ends :
      (q : Query) (vs : List Value) (code step_code : ℕ) (t : Token S)
      → effect q vs (view t.db) ≢ silent
      → Ends
          (Refused (effect q vs (view t.db)) code step_code (view t.db))
          (λ _ t'. effect q vs (view t.db) ≡ changes (view t'.db))
          (execute (sql_of q) vs code step_code t)
  unfolding execute step
  execute-Ends q vs code step_code t told =
      bound_rule (Refused (effect q vs (view t.db)) code step_code (view t.db))
        (λ _ t'. effect q vs (view t.db) ≡ changes (view t'.db)) (sql_of q) vs code
        (step >>= λ o. expect_done o step_code) t (λ c t' h. (inl h.0, h.1, inl h.2))
        (λ t' h.
          Ends-mono {A = Unit {0}} (NotDone (effect q vs (view t.db)) step_code (view t.db))
            (Refused (effect q vs (view t.db)) code step_code (view t.db))
            (λ _ t''. effect q vs (view t.db) ≡ changes (view t''.db))
            (λ _ t''. effect q vs (view t.db) ≡ changes (view t''.db))
            (continue (λ out. expect_done out step_code) (step_of t'.stmt t'))
            (write-Ends q vs (view t.db) step_code t' t'.stmt h.0 h.1 told)
            (λ c t'' f. (inr f.0, f.1, f.2)) (λ _ _ e. e))

  pub finalized-view : (o : Option S.Stmt) (t : Token S) → view (finalized o t).db ≡ view t.db
  unfolding finalized
  finalized-view none t = refl
  finalized-view (some s) t = K.finalize_keeps s t.db

  finalized-Ends :
      {A : Type 0} (E : ℕ → Store → Type 0) (P : A → Store → Type 0) (r : Result A × Token S)
      → Meets E P r
      → Meets E P (r.0, finalized r.1.stmt r.1)
  finalized-Ends E P (ok a, t) h = rw finalized-view h
  finalized-Ends E P (err c, t) h = rw finalized-view h
  finalized-Ends E P (hang, t) h = h

  -- Finalizing the statement changes neither the result nor the tables.
  pub finally-Ends :
      {A : Type 0} (E : ℕ → Store → Type 0) (P : A → Store → Type 0) (m : Exec (Token S) A)
      (t : Token S)
      → Meets E P (m t)
      → Meets E P (finally m t)
  unfolding finally
  finally-Ends E P m t h = finalized-Ends E P (m t) h
