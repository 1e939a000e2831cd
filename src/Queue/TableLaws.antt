-- ===== src/Queue/TableLaws.antt =====
-- What the functions of Queue/Tables do to the tables, on success and on failure.
use simple_task_queue.Common.{
  ℕ, ◌≡◌, ◌≢◌, ◌⊎◌, inl, inr, true, false, List, [], ◌∷◌, ◌++◌, ℤ, arith, to_int32, int_of_bool,
  bool_of_int,
}
use simple_task_queue.Args.{split_string, concat_string}
use simple_task_queue.Task.{Task}
use simple_task_queue.ErrMsg.{not_found, os_error}
use simple_task_queue.Exec.{Ends-mono}
use simple_task_queue.Sqlite.{Sqlite, Token, int, execute, Value, finally}
use simple_task_queue.Queue.Tables.{
  clear_table, add_task_to_table, delete_from_pending, values_of_task,
}
use simple_task_queue.Queue.Contract.{
  Contract, Store, Entry, Table, table_name, entries, with_entries, has_id, without_id, Query,
  insert_into, clear, delete_pending, effect, changes, silent, sql_of, refuses,
}
use simple_task_queue.Queue.Statements.{Meets, execute-Ends, finally-Ends}

-- The row that a task is stored as, and the task that a row is read as.
abbrev pub entry_of_task : Task → Entry
entry_of_task t = record {
  exec_name = t.exec_name;
  args = concat_string t.args;
  work_dir = t.work_dir;
  id = to_int32 t.id;
  exit_code = to_int32 t.exit_code;
  is_success = int_of_bool t.is_success;
}

abbrev pub task_of_entry : Entry → Task
task_of_entry e = record {
  exec_name = e.exec_name;
  args = split_string e.args;
  work_dir = e.work_dir;
  id = e.id;
  exit_code = e.exit_code;
  is_success = bool_of_int e.is_success;
}

-- The function failed with this code, changed nothing, and had this reason.
abbrev pub FailsWith : ℕ → Type 0 → Store → ℕ → Store → Type 0
FailsWith code why v c w = (c ≡ code) × (w ≡ v) × why

refuses-ne : {v : Store} → changes v ≢ refuses
refuses-ne h = cc

insert_refuses :
    (tb : Table) (task : Task) (v : Store)
    → effect (insert_into tb) (values_of_task task) v ≡ refuses
    → has_id (to_int32 task.id) (entries tb v) ≡ true
insert_refuses tb task v h = ground arith

changes_inj : {v w : Store} → changes v ≡ changes w → v ≡ w
changes_inj h = cc

insert_told :
    (tb : Table) (task : Task) (v : Store)
    → effect (insert_into tb) (values_of_task task) v ≢ silent
insert_told tb task v h = ground arith

insert_changes :
    (tb : Table) (task : Task) (v w : Store)
    → effect (insert_into tb) (values_of_task task) v ≡ changes w
    → (has_id (to_int32 task.id) (entries tb v) ≡ false)
      × (w ≡ with_entries tb (entries tb v ++ entry_of_task task ∷ []) v)
insert_changes tb task v w h = ground arith

module _ {S : Sqlite} {Fault : Type 0} (K : Contract S Fault) where
  open K use {view}

  change-Meets :
      (q : Query) (vs : List Value) (code step_code : ℕ) (t : Token S)
      → effect q vs (view t.db) ≢ silent
      → Meets K
          (λ c w.
            ((c ≡ code) ⊎ (c ≡ step_code))
            × (w ≡ view t.db)
            × (Fault ⊎ (effect q vs (view t.db) ≡ refuses)))
          (λ _ w. effect q vs (view t.db) ≡ changes w)
          (finally (execute (sql_of q) vs code step_code) t)
  change-Meets q vs code step_code t told =
      finally-Ends K
        (λ c w.
          ((c ≡ code) ⊎ (c ≡ step_code))
          × (w ≡ view t.db)
          × (Fault ⊎ (effect q vs (view t.db) ≡ refuses)))
        (λ _ w. effect q vs (view t.db) ≡ changes w) (execute (sql_of q) vs code step_code) t
        (execute-Ends K q vs code step_code t told)

  -- clearTable empties its table and no other, or says OS_ERROR where SQLite fails and changes
  -- nothing.
  pub clear_table-Meets :
      (tb : Table) (t : Token S)
      → Meets K
          (FailsWith os_error Fault (view t.db))
          (λ _ w. w ≡ with_entries tb [] (view t.db))
          (clear_table (table_name tb) t)
  unfolding clear_table
  clear_table-Meets tb t =
      Ends-mono {A = Unit {0}} _ _ _ _ (clear_table (table_name tb) t)
        (change-Meets (clear tb) [] os_error os_error t (λ h. cc))
        (λ c t' h. (
          elim h.0 [ inl e ↦ e | inr e ↦ e ],
          h.1,
          elim h.2 [ inl f ↦ f | inr e ↦ absurd (refuses-ne e) ],
        ))
        (λ _ t' h. cc (changes_inj h))

  -- addTaskToTable puts the task behind the others if its ID is free there; it says OS_ERROR only
  -- where the ID is taken or SQLite fails, and changes nothing then.
  pub add_task_to_table-Meets :
      (tb : Table) (task : Task) (t : Token S)
      → Meets K
          (FailsWith os_error
            (Fault ⊎ (has_id (to_int32 task.id) (entries tb (view t.db)) ≡ true))
            (view t.db))
          (λ _ w.
            (has_id (to_int32 task.id) (entries tb (view t.db)) ≡ false)
            × (w ≡ with_entries tb (entries tb (view t.db) ++ entry_of_task task ∷ []) (view t.db)))
          (add_task_to_table (table_name tb) task t)
  unfolding add_task_to_table
  add_task_to_table-Meets tb task t =
      Ends-mono {A = Unit {0}} _ _ _ _ (add_task_to_table (table_name tb) task t)
        (change-Meets (insert_into tb) (values_of_task task) os_error os_error t
          (insert_told tb task (view t.db)))
        (λ c t' h. (
          elim h.0 [ inl e ↦ e | inr e ↦ e ],
          h.1,
          elim h.2 [ inl f ↦ inl f | inr e ↦ inr (insert_refuses tb task (view t.db) e) ],
        ))
        (λ _ t' h. insert_changes tb task (view t.db) (view t'.db) h)

  -- The statement of removeTaskFromPending takes out the rows with the ID, there or not; or it
  -- fails and changes nothing.
  pub delete_from_pending-Meets :
      (id : ℤ) (t : Token S)
      → Meets K
          (λ c w. ((c ≡ os_error) ⊎ (c ≡ not_found)) × (w ≡ view t.db) × Fault)
          (λ _ w. w ≡ record (view t.db) { pending = without_id (to_int32 id) (view t.db).pending })
          (delete_from_pending id t)
  unfolding delete_from_pending
  delete_from_pending-Meets id t =
      Ends-mono {A = Unit {0}} _ _ _ _ (delete_from_pending id t)
        (change-Meets delete_pending (int (to_int32 id) ∷ []) os_error not_found t (λ h. cc))
        (λ c t' h. (h.0, h.1, elim h.2 [ inl f ↦ f | inr e ↦ absurd (refuses-ne e) ]))
        (λ _ t' h. cc (changes_inj h))
