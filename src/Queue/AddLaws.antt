-- ===== src/Queue/AddLaws.antt =====
-- model/dao/sqlitequeue.cpp: addTask, and what it leaves in the tables.
use simple_task_queue.Common.{
  ℕ, ◌<◌, ◌≡◌, refl, sym, ap, ◌∙◌, ◌≢◌, ◌⊎◌, inl, inr, true, false, [], ◌∷◌, ◌++◌, ℤ, to_int32,
  length, subst,
}
use simple_task_queue.Task.{Task}
use simple_task_queue.ErrMsg.{os_error}
use simple_task_queue.Exec.{
  Result, ok, err, hang, Ends-mono, Ends-continue, recode, pure, ◌>>=◌, ◌>>◌,
}
use simple_task_queue.Sqlite.{Sqlite, Token}
use simple_task_queue.Queue.Tables.{get_id, add_task_to_table}
use simple_task_queue.Queue.Contract.{Contract, Store, has_id, pending_table}
use simple_task_queue.Queue.Statements.{Meets}
use simple_task_queue.Queue.TableLaws.{entry_of_task, add_task_to_table-Meets}
use simple_task_queue.Queue.IdLaws.{get_id-Meets, next_id, NoId, HasId}

-- Why a task was not added, and the tables behind that: as they were, or with a number used up.
abbrev pub NotAdded : Type 0 → Store → ℕ → Store → Type 0
NotAdded Fault v c w =
    (c ≡ os_error)
    × (((w ≡ v) × (Fault ⊎ (length v.last_id ≢ 1)))
        ⊎ ((n : ℤ) × (v.last_id ≡ n ∷ [])
            × (w ≡ record v { last_id = next_id n ∷ [] })
            × (Fault ⊎ (has_id (to_int32 n) v.pending ≡ true))))

-- The tables behind a success with the ID `n`.
abbrev pub Added : Task → Store → ℤ → Store → Type 0
Added task v n w =
    (v.last_id ≡ n ∷ [])
    × (has_id (to_int32 n) v.pending ≡ false)
    × (w ≡ record v {
      pending = v.pending ++ entry_of_task (record task { id = n }) ∷ [];
      last_id = next_id n ∷ [];
    })

-- No number was given out, for this reason.
abbrev Unused : Type 0 → Store → Store → Type 0
Unused Fault v w = (w ≡ v) × (Fault ⊎ (length v.last_id ≢ 1))

module _ {S : Sqlite} {Fault : Type 0} (K : Contract S Fault) where
  open K use {view}

  recode-Ends :
      {A : Type 0} (code : ℕ) (E : Store → Type 0) (P : A → Store → Type 0) (r : Result A × Token S)
      → Meets K (λ _. E) P r
      → Meets K (λ c w. (c ≡ code) × E w) P (recode code r)
  recode-Ends code E P (ok a, t) h = h
  recode-Ends code E P (err c, t) h = (refl, h)
  recode-Ends code E P (hang, t) h = h

  insert-Meets :
      (task : Task) (v : Store) (n : ℤ) (t : Token S)
      → HasId v n (view t.db)
      → Meets K
          (NotAdded Fault v)
          (Added task v)
          ((add_task_to_table "pending" (record task { id = n }) >> pure n) t)
  insert-Meets task v n t (one, now) =
      Ends-continue {A = Unit {0}} (λ c t'. NotAdded Fault v c (view t'.db))
        (λ _ t'. Added task v n (view t'.db)) (λ m t'. Added task v m (view t'.db)) (λ _. pure n)
        (add_task_to_table "pending" (record task { id = n }) t)
        (Ends-mono {A = Unit {0}} _ _ _ _ (add_task_to_table "pending" (record task { id = n }) t)
          (add_task_to_table-Meets K pending_table (record task { id = n }) t)
          (λ c t' f. (
            f.0,
            inr (
              n,
              one,
              f.1 ∙ now,
              elim f.2 [
                | inl x ↦ inl x
                | inr e ↦ inr (sym (ap (λ (u : Store). has_id (to_int32 n) u.pending) now) ∙ e)
              ],
            ),
          ))
          (λ _ t' h.
            let both =
              subst
                (λ (u : Store).
                  (has_id (to_int32 n) u.pending ≡ false)
                  × (view t'.db ≡ record u {
                    pending = u.pending ++ entry_of_task (record task { id = n }) ∷ [];
                  }))
                now h in
            (one, both.0, both.1)))
        (λ _ t' h. h)

  pub add_task-Meets :
      (task : Task) (t : Token S)
      → length (view t.db).last_id < S.rounds
      → Meets K (NotAdded Fault (view t.db)) (Added task (view t.db)) (
          ((λ t'. recode os_error (get_id t')) >>= λ id.
          add_task_to_table "pending" (record task { id = id }) >> pure id)
            t)
  add_task-Meets task t h =
      let v : Store = view t.db in
      Ends-continue (λ c t'. NotAdded Fault v c (view t'.db)) (λ n t'. HasId v n (view t'.db))
        (λ n t'. Added task v n (view t'.db))
        (λ id. add_task_to_table "pending" (record task { id = id }) >> pure id)
        (recode os_error (get_id t))
        (Ends-mono (λ c t'. (c ≡ os_error) × Unused Fault v (view t'.db))
          (λ c t'. NotAdded Fault v c (view t'.db)) (λ n t'. HasId v n (view t'.db))
          (λ n t'. HasId v n (view t'.db)) (recode os_error (get_id t))
          (recode-Ends os_error (Unused Fault v) (HasId v) (get_id t) (
            Ends-mono (λ c t'. NoId Fault v c (view t'.db)) (λ _ t'. Unused Fault v (view t'.db))
              (λ n t'. HasId v n (view t'.db)) (λ n t'. HasId v n (view t'.db)) (get_id t)
              (get_id-Meets K t h) (λ c t' f. (f.1, elim f.0 [ inl e ↦ inl e.1 | inr e ↦ inr e.1 ]))
              (λ _ _ p. p)))
          (λ c t' f. (f.0, inl f.1)) (λ _ _ p. p))
        (λ n t' p. insert-Meets task v n t' p)
