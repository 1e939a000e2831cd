-- ===== src/Queue/Moves.antt =====
-- mainLoopInit and mainLoopFin over a reliable SQLite: the choice of a task and its move to `done`.
use simple_task_queue.Common.{
  ◌≡◌, refl, sym, ap, ◌∙◌, ◌≢◌, inl, inr, true, false, some, List, [], ◌∷◌, ◌++◌, ℤ, to_int32,
  subst,
}
use simple_task_queue.Task.{empty_task}
use simple_task_queue.Exec.{Result, ok, err, hang, Ends, Ends-mono}
use simple_task_queue.Sqlite.{Sqlite, Token, row, done, error, Outcome}
use simple_task_queue.Process.{Process}
use simple_task_queue.Queue.{Queue, on_token, put_token}
use simple_task_queue.Queue.MainLoop.{
  main_loop_init, on_first, main_loop_fin, after_exit, after_delete, insert_done, after_insert,
}
use simple_task_queue.Queue.Tables.{first_task, add_task_to_table, delete_from_pending}
use simple_task_queue.Queue.Contract.{Contract, Store, Entry, Shows, has_id, without_id, done_table}
use simple_task_queue.Queue.Statements.{Meets}
use simple_task_queue.Queue.TableLaws.{
  task_of_entry, entry_of_task, add_task_to_table-Meets, delete_from_pending-Meets,
}
use simple_task_queue.Queue.RoundLaws.{FirstIs, Found, first_task-Meets}
use simple_task_queue.Queue.Methods.{tables}
use simple_task_queue.Queue.DetailLaws.{task_of_row-Shows}

true_ne : true ≢ false
true_ne h = cc

module _ {S : Sqlite} {P : Process} (K : Contract S ⊥) where
  open K use {view}

  -- mainLoopInit has made `e` the current task, and nothing else.
  abbrev pub Begun : Queue S P → Entry → Queue S P → Type 0
  Begun q e q' =
      (tables K q' ≡ tables K q)
      × (q'.current_task ≡ task_of_entry e)
      × (q'.process ≡ q.process)
      × (q'.start_flag ≡ q.start_flag)

  on_first-Begun :
      (q : Queue S P) (e : Entry) (es : List Entry) (r : Result Outcome × Token S)
      → (tables K q).pending ≡ e ∷ es
      → Meets K (λ c w. ⊥ × (w ≡ tables K q)) (Found K (tables K q)) r
      → Ends (λ _ _. ⊥) (λ _. Begun q e) (on_first (put_token q r))
  unfolding on_first put_token
  on_first-Begun q e es (ok (row w), t) first (same, shows) =
      let shown : Shows w e = subst (FirstIs ⊥ (row w)) first shows in
      (same, task_of_row-Shows w e shown, refl, refl)
  on_first-Begun q e es (ok done, t) first (same, shows) =
      absurd (subst (FirstIs ⊥ done) first shows)
  on_first-Begun q e es (ok error, t) first (same, shows) = shows
  on_first-Begun q e es (err c, t) first h = h.0
  on_first-Begun q e es (hang, t) first h = h

  -- mainLoopInit has found no task: the flags are cleared.
  abbrev pub Idled : Queue S P → Queue S P → Type 0
  Idled q q' =
      (tables K q' ≡ tables K q)
      × (q'.start_flag ≡ false)
      × (q'.process ≡ q.process)
      × (q'.current_task ≡ q.current_task)

  -- There is no pending task.
  on_first-none :
      (q : Queue S P) (r : Result Outcome × Token S)
      → (tables K q).pending ≡ []
      → Meets K (λ c w. ⊥ × (w ≡ tables K q)) (Found K (tables K q)) r
      → Ends (λ _. Idled q) (λ _ _. ⊥) (on_first (put_token q r))
  unfolding on_first put_token
  on_first-none q (ok (row w), t) first (same, shows) = subst (FirstIs ⊥ (row w)) first shows
  on_first-none q (ok done, t) first (same, shows) = (same, refl, refl, refl)
  on_first-none q (ok error, t) first (same, shows) = absurd shows
  on_first-none q (err c, t) first h = absurd h.0
  on_first-none q (hang, t) first h = h

  pub main_loop_init-Begun :
      (q : Queue S P) (e : Entry) (es : List Entry)
      → (tables K q).pending ≡ e ∷ es
      → Ends (λ _ _. ⊥) (λ _. Begun q e) (main_loop_init q)
  unfolding main_loop_init on_token
  main_loop_init-Begun q e es first =
      on_first-Begun q e es (first_task q.token) first (first_task-Meets K q.token)

  pub main_loop_init-none :
      (q : Queue S P)
      → (tables K q).pending ≡ []
      → Ends (λ _. Idled q) (λ _ _. ⊥) (main_loop_init q)
  unfolding main_loop_init on_token
  main_loop_init-none q first =
      on_first-none q (first_task q.token) first (first_task-Meets K q.token)

  -- mainLoopFin has moved the current task.
  abbrev pub Moved : Queue S P → Store → P.State → Queue S P → Type 0
  Moved q w s q' =
      (tables K q' ≡ w)
      × (q'.process ≡ s)
      × (q'.start_flag ≡ q.start_flag)
      × (q'.current_task ≡ empty_task)

  after_insert-Moved :
      (q : Queue S P) (w : Store) (r : Result (Unit {0}) × Token S)
      → Meets K (λ _ _. ⊥) (λ _ w'. w' ≡ w) r
      → Moved q w q.process (after_insert (put_token q r))
  unfolding after_insert put_token
  after_insert-Moved q w (ok x, t) h = (h, refl, refl, refl)
  after_insert-Moved q w (err c, t) h = absurd h
  after_insert-Moved q w (hang, t) h = absurd h

  insert-Moved :
      (q : Queue S P) (w : Store)
      → tables K q ≡ w
      → has_id (to_int32 q.current_task.id) w.done ≡ false
      → Moved q
          (record w { done = w.done ++ entry_of_task q.current_task ∷ [] })
          q.process
          (insert_done q)
  unfolding insert_done on_token
  insert-Moved q w same free =
      let w' : Store = record w { done = w.done ++ entry_of_task q.current_task ∷ [] } in
      after_insert-Moved q w' (add_task_to_table "done" q.current_task q.token) (
        Ends-mono {A = Unit {0}} _ (λ _ _. ⊥) _ (λ _ t. view t.db ≡ w')
          (add_task_to_table "done" q.current_task q.token)
          (add_task_to_table-Meets K done_table q.current_task q.token)
          (λ c t h. elim h.2 [
            | inl f ↦ f
            | inr e ↦
                true_ne (
                  sym e
                  ∙ ap (λ (u : Store). has_id (to_int32 q.current_task.id) u.done) same
                  ∙ free)
          ])
          (λ _ t h.
            h.1
            ∙ ap (λ (u : Store). record u { done = u.done ++ entry_of_task q.current_task ∷ [] })
                same))

  after_delete-Moved :
      (q : Queue S P) (w : Store) (r : Result (Unit {0}) × Token S)
      → Meets K (λ _ _. ⊥) (λ _ w'. w' ≡ w) r
      → has_id (to_int32 q.current_task.id) w.done ≡ false
      → Moved q
          (record w { done = w.done ++ entry_of_task q.current_task ∷ [] })
          q.process
          (after_delete (put_token q r))
  unfolding after_delete put_token
  after_delete-Moved q w (ok x, t) h free = insert-Moved (record q { token = t }) w h free
  after_delete-Moved q w (err c, t) h free = absurd h
  after_delete-Moved q w (hang, t) h free = absurd h

  delete-Moved :
      (q : Queue S P) (w : Store)
      → record (tables K q) {
        pending = without_id (to_int32 q.current_task.id) (tables K q).pending;
      }
        ≡ w
      → has_id (to_int32 q.current_task.id) w.done ≡ false
      → Moved q
          (record w { done = w.done ++ entry_of_task q.current_task ∷ [] })
          q.process
          (after_delete (on_token (delete_from_pending q.current_task.id) q))
  unfolding on_token
  delete-Moved q w same free =
      after_delete-Moved q w (delete_from_pending q.current_task.id q.token)
        (Ends-mono {A = Unit {0}} _ (λ _ _. ⊥) _ (λ _ t. view t.db ≡ w)
          (delete_from_pending q.current_task.id q.token)
          (delete_from_pending-Meets K q.current_task.id q.token) (λ c t h. h.2)
          (λ _ t h. h ∙ same))
        free

  -- mainLoopFin moves the current task, with the exit code that the process gives.
  pub main_loop_fin-Moved :
      (q : Queue S P) (w : Store) (x : ℤ) (s : P.State)
      → P.exit_code q.process ≡ (some x, s)
      → record (tables K q) {
        pending = without_id (to_int32 q.current_task.id) (tables K q).pending;
      }
        ≡ w
      → has_id (to_int32 q.current_task.id) w.done ≡ false
      → Moved q
          (record w {
            done = w.done ++ entry_of_task (record q.current_task { exit_code = x }) ∷ [];
          })
          s
          (main_loop_fin q)
  unfolding main_loop_fin after_exit
  main_loop_fin-Moved q w x s code same free =
      subst
        (λ r.
          Moved q
            (record w {
              done = w.done ++ entry_of_task (record q.current_task { exit_code = x }) ∷ [];
            })
            s (after_exit r q))
        (sym code)
        (delete-Moved
          (record q { process = s; current_task = record q.current_task { exit_code = x } }) w same
          free)
