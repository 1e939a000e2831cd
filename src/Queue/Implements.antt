-- ===== src/Queue/Implements.antt =====
-- model/dao/sqlitequeue.cpp: when a queue is at a state of Queue/Spec, and the methods that change it.
use simple_task_queue.Common.{
  ◌⊎◌, ◌≢◌, ℕ, ◌+◌, ◌<◌, ◌≡◌, refl, sym, ap, ◌∙◌, subst, [], ◌∷◌, ◌++◌, ℤ, pos, int_eq, to_int32,
  to_int32_id, false, Bool-cases, inl, inr, length, arith, int_eq_iff,
}
use simple_task_queue.Task.{Task, empty_task}
use simple_task_queue.Exec.{Result, Ends-mono}
use simple_task_queue.Sqlite.{Sqlite}
use simple_task_queue.Process.{Process}
use simple_task_queue.Queue.{Queue, add_task, remove_task, clear_pending, clear_finished, on_token}
use simple_task_queue.ErrMsg.{os_error, not_found}
use simple_task_queue.Queue.Tables.{clear_table}
use simple_task_queue.Queue.Statements.{Meets}
use simple_task_queue.Queue.Contract.{
  with_entries, Contract, Store, has_id, without_id, pending_table, done_table,
}
use simple_task_queue.Queue.TableLaws.{FailsWith, entry_of_task, clear_table-Meets}
use simple_task_queue.Queue.IdLaws.{next_id}
use simple_task_queue.Queue.AddLaws.{NotAdded, Added}
use simple_task_queue.Queue.Valid.{IsValid, has_id_next}
use simple_task_queue.Queue.Keeps.{
  IsValid-push, IsValid-delete, IsValid-clear_pending, IsValid-clear_done,
}
use simple_task_queue.Queue.Methods.{
  Leaves, tables, SameButToken, add_task-Leaves, remove_task-Leaves, on_token-Leaves,
}
use simple_task_queue.Queue.Rounds.{Cooperates}
use simple_task_queue.Queue.Spec.{
  Spec, store_of, adds, removes, clears_pending, clears_done, spec_step, Ends-state, cons_inj,
  true_ne, next_id-pos,
}

module _ {S : Sqlite} {P : Process} (K : Contract S ⊥) (waits : ℕ) (Idle : P.State → Type 0)
    (code : Task → ℤ) (runs : Cooperates P waits Idle code) where
  -- The queue is at the state of the specification, and idle.
  abbrev pub Implements : Spec → Queue S P → Type 0
  Implements s q =
      (tables K q ≡ store_of s)
      × IsValid s.next (store_of s)
      × Idle q.process
      × (q.current_task ≡ empty_task)

  -- An action on the database that leaves the tables of `s'`.
  moved-Implements :
      (s s' : Spec) (q q' : Queue S P)
      → Implements s q
      → tables K q' ≡ store_of s'
      → SameButToken K q q'
      → IsValid s'.next (store_of s')
      → Implements s' q'
  moved-Implements s s' q q' (same, valid, idle, current) now only valid' =
      (now, valid', rw only idle, ap (λ (x : Queue S P). x.current_task) only ∙ current)

  not_added :
      (s : Spec) (c : ℕ) (w : Store) → IsValid s.next (store_of s) → NotAdded ⊥ (store_of s) c w → ⊥
  not_added s c w valid h = elim h.1 [
    | inl (same, why) ↦ elim why [ inl f ↦ f | inr many ↦ many refl ]
    | inr (n, one, now, why) ↦ elim why [
      | inl f ↦ f
      | inr taken ↦
          let number : to_int32 n ≡ pos s.next =
            ap to_int32 (sym (cons_inj one)) ∙ to_int32_id (pos s.next) valid.fits in
          true_ne (
            sym taken
            ∙ ap (λ z. has_id z s.pending) number
            ∙ has_id_next s.next s.pending valid.pending_below)
    ]
  ]

  Added-store :
      (s : Spec) (task : Task) (n : ℤ) (w : Store)
      → s.next + 1 < 2147483648
      → Added task (store_of s) n w
      → w ≡ store_of (spec_step code (adds task) s)
  Added-store s task n w fits (one, free, now) =
      now
      ∙ ap
          (λ m. record (store_of s) {
            pending = s.pending ++ entry_of_task (record task { id = m }) ∷ [];
            last_id = next_id m ∷ [];
          })
          (sym (cons_inj one))
      ∙ ap
          (λ m. record (store_of s) {
            pending = s.pending ++ entry_of_task (record task { id = pos s.next }) ∷ [];
            last_id = m ∷ [];
          })
          (next_id-pos s.next fits)

  pub add-Implements :
      (s : Spec) (task : Task) (q : Queue S P)
      → 1 < S.rounds
      → s.next + 1 < 2147483648
      → Implements s q
      → Implements (spec_step code (adds task) s) (add_task task q).1
  add-Implements s task q rounds fits (same, valid, idle, current) =
      let s' = spec_step code (adds task) s in
      let valid' : IsValid s'.next (store_of s') =
        IsValid-push s.next (store_of s) (entry_of_task (record task { id = pos s.next })) valid
          (to_int32_id (pos s.next) valid.fits) fits in
      Ends-state (Implements s') (add_task task q) (
        Ends-mono (λ c q'. NotAdded ⊥ (tables K q) c (tables K q') × SameButToken K q q')
          (λ _. Implements s')
          (λ n q'. Added task (tables K q) n (tables K q') × SameButToken K q q')
          (λ _. Implements s') (add_task task q)
          (add_task-Leaves K task q
            (omega (arith, rounds, ap (λ (v : Store). length v.last_id) same)))
          (λ c q' h. absurd (
            not_added s c (tables K q') valid (subst (λ v. NotAdded ⊥ v c (tables K q')) same h.0)))
          (λ n q' h.
            moved-Implements s s' q q' (same, valid, idle, current)
              (Added-store s task n (tables K q') fits
                (subst (λ v. Added task v n (tables K q')) same h.0))
              h.1 valid'))

  -- An action that fails only with SQLite.
  Leaves-Implements :
      (s s' : Spec) (q : Queue S P) (E : ℕ → Store → Type 0) (r : Result (Unit {0}) × Queue S P)
      → Implements s q
      → ((c : ℕ) (w : Store) → E c w → ⊥)
      → IsValid s'.next (store_of s')
      → Leaves K q E (λ _ w. w ≡ store_of s') r
      → Implements s' r.1
  Leaves-Implements s s' q E r h never valid' leaves = Ends-state (Implements s') r (
      Ends-mono {A = Unit {0}} (λ c q'. E c (tables K q') × SameButToken K q q')
        (λ _. Implements s') (λ _ q'. (tables K q' ≡ store_of s') × SameButToken K q q')
        (λ _. Implements s') r leaves (λ c q' f. absurd (never c (tables K q') f.0))
        (λ _ q' g. moved-Implements s s' q q' h g.0 g.1 valid'))

  pub clear_pending-Implements :
      (s : Spec) (q : Queue S P)
      → Implements s q
      → Implements (spec_step code clears_pending s) (clear_pending q).1
  unfolding clear_pending
  clear_pending-Implements s q h =
      let s' = spec_step code clears_pending s in
      Leaves-Implements s s' q (FailsWith os_error ⊥ (store_of s))
        (on_token (clear_table "pending") q) h (λ _ _ f. f.2)
        (IsValid-clear_pending s.next (store_of s) h.1)
        (on_token-Leaves K (FailsWith os_error ⊥ (store_of s)) (λ _ w. w ≡ store_of s') q
          (clear_table "pending")
          (subst
            (λ v.
              Meets K (FailsWith os_error ⊥ v) (λ _ w. w ≡ with_entries pending_table [] v)
                (clear_table "pending" q.token))
            h.0 (clear_table-Meets K pending_table q.token)))

  pub clear_finished-Implements :
      (s : Spec) (q : Queue S P)
      → Implements s q
      → Implements (spec_step code clears_done s) (clear_finished q).1
  unfolding clear_finished
  clear_finished-Implements s q h =
      let s' = spec_step code clears_done s in
      Leaves-Implements s s' q (FailsWith os_error ⊥ (store_of s)) (on_token (clear_table "done") q)
        h (λ _ _ f. f.2) (IsValid-clear_done s.next (store_of s) h.1)
        (on_token-Leaves K (FailsWith os_error ⊥ (store_of s)) (λ _ w. w ≡ store_of s') q
          (clear_table "done")
          (subst
            (λ v.
              Meets K (FailsWith os_error ⊥ v) (λ _ w. w ≡ with_entries done_table [] v)
                (clear_table "done" q.token))
            h.0 (clear_table-Meets K done_table q.token)))

  remove_other :
      (s : Spec) (id : ℤ) (q : Queue S P)
      → Implements s q
      → id ≢ q.current_task.id
      → Leaves K q
          (λ c w. ((c ≡ os_error) ⊎ (c ≡ not_found)) × (w ≡ tables K q) × ⊥)
          (λ _ w.
            w ≡ record (tables K q) { pending = without_id (to_int32 id) (tables K q).pending })
          (remove_task id q)
      → Implements (spec_step code (removes id) s) (remove_task id q).1
  remove_other s id q h other leaves =
      let zero_id : q.current_task.id ≡ pos 0 = ap (λ (t : Task). t.id) h.3 in
      let test : int_eq id (pos 0) ≡ false = elim (Bool-cases (int_eq id (pos 0))) [
        | inl e ↦ absurd (other ((int_eq_iff id (pos 0)).0 e ∙ sym zero_id))
        | inr e ↦ e
      ] in
      let s1 : Spec = record s { pending = without_id (to_int32 id) s.pending } in
      rw test (
        Leaves-Implements s s1 q (λ c w. ((c ≡ os_error) ⊎ (c ≡ not_found)) × (w ≡ store_of s) × ⊥)
          (remove_task id q) h (λ _ _ f. f.2) (IsValid-delete s.next (store_of s) (to_int32 id) h.1)
          (subst
            (λ v.
              Leaves K q (λ c w. ((c ≡ os_error) ⊎ (c ≡ not_found)) × (w ≡ v) × ⊥)
                (λ _ w. w ≡ record v { pending = without_id (to_int32 id) v.pending })
                (remove_task id q))
            h.0 leaves))

  pub remove-Implements :
      (s : Spec) (id : ℤ) (q : Queue S P)
      → Implements s q
      → Implements (spec_step code (removes id) s) (remove_task id q).1
  remove-Implements s id q h = elim (remove_task-Leaves K id q) [
    | inl (same, refused) ↦
        let zero_id : id ≡ pos 0 = same ∙ ap (λ (t : Task). t.id) h.3 in
        subst (λ r. Implements (spec_step code (removes id) s) r.1) (sym refused)
          (rw ((int_eq_iff id (pos 0)).1 zero_id) h)
    | inr (other, leaves) ↦ remove_other s id q h other leaves
  ]
