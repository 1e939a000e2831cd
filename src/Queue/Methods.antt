-- ===== src/Queue/Methods.antt =====
-- The methods of a queue that change its tables, from outside: what the caller is told and what the
-- tables hold.
use simple_task_queue.Common.{
  ℕ, ◌+◌, ◌<◌, ◌≡◌, refl, sym, ap, ◌∙◌, ◌≢◌, ◌⊎◌, inl, inr, Bool, true, false, [], ◌∷◌, ℤ, pos,
  int_eq, to_int32, to_int32_id, arith, length, subst, IsInt32, Bool-cases, int_eq_iff,
  length-append, bool_of_int, int_of_bool,
}
use simple_task_queue.Args.RoundTrip.{IsRepresentable, split-concat_iff}
use simple_task_queue.Task.{Task, empty_task}
use simple_task_queue.ErrMsg.{os_error, not_found, invalid_argument}
use simple_task_queue.Exec.{Result, ok, err, hang, Exec, Ends, Ends-mono}
use simple_task_queue.Sqlite.{Sqlite, Token}
use simple_task_queue.Process.{Process}
use simple_task_queue.Queue.{
  Queue, on_token, put_token, add_task, remove_task, pending_details, task_details,
  delete_from_pending,
}
use simple_task_queue.Queue.Contract.{Contract, Store, Entry, without_id, pending_table, with_id}
use simple_task_queue.Queue.Statements.{Meets}
use simple_task_queue.Queue.TableLaws.{entry_of_task, task_of_entry, delete_from_pending-Meets}
use simple_task_queue.Queue.AddLaws.{Added, NotAdded, add_task-Meets}
use simple_task_queue.Queue.DetailLaws.{task_details-Meets, hits, NoDetails, HasDetails, last_task}
use simple_task_queue.Queue.Valid.{with_id-append, IsValid}

bool_of_int_of_bool : (b : Bool) → bool_of_int (int_of_bool b) ≡ b
bool_of_int_of_bool true = refl
bool_of_int_of_bool false = refl

-- Storing a task and reading it back.
task-entry :
    (task : Task)
    → IsRepresentable task.args
    → IsInt32 task.id
    → IsInt32 task.exit_code
    → task_of_entry (entry_of_task task) ≡ task
task-entry task args id code = cc (
  (split-concat_iff task.args).1 args,
  to_int32_id task.id id,
  to_int32_id task.exit_code code,
  bool_of_int_of_bool task.is_success,
)

hits-Added :
    (task : Task) (n : ℕ) (v w : Store)
    → IsValid n v
    → Added task v (pos n) w
    → hits pending_table (pos n) w ≡ entry_of_task (record task { id = pos n }) ∷ []
hits-Added task n v w valid (one, free, now) =
    let small : to_int32 (pos n) ≡ pos n = to_int32_id (pos n) valid.fits in
    let e : Entry = entry_of_task (record task { id = pos n }) in
    let alone =
      with_id-append (to_int32 (pos n)) v.pending e free
        ((int_eq_iff e.id (to_int32 (pos n))).1 refl) in
    ap (λ (u : Store). with_id (to_int32 (pos n)) u.pending) now ∙ alone

module _ {S : Sqlite} {P : Process} {Fault : Type 0} (K : Contract S Fault) where
  open K use {view}

  -- The tables of a queue.
  abbrev pub tables : Queue S P → Store
  tables q = view q.token.db

  -- All but the token is as it was.
  abbrev pub SameButToken : Queue S P → Queue S P → Type 0
  SameButToken q q' = q' ≡ record q { token = q'.token }

  abbrev pub Leaves :
      {A : Type 0}
      → Queue S P
      → (ℕ → Store → Type 0)
      → (A → Store → Type 0)
      → Result A × Queue S P
      → Type 0
  Leaves q E Q =
      Ends (λ c q'. E c (tables q') × SameButToken q q')
        (λ a q'. Q a (tables q') × SameButToken q q')

  put_token-Leaves :
      {A : Type 0} (E : ℕ → Store → Type 0) (Q : A → Store → Type 0) (q : Queue S P)
      (r : Result A × Token S)
      → Meets K E Q r
      → Leaves q E Q (put_token q r)
  unfolding put_token
  put_token-Leaves E Q q (ok a, t) h = (h, refl)
  put_token-Leaves E Q q (err c, t) h = (h, refl)
  put_token-Leaves E Q q (hang, t) h = h

  pub on_token-Leaves :
      {A : Type 0} (E : ℕ → Store → Type 0) (Q : A → Store → Type 0) (q : Queue S P)
      (m : Exec (Token S) A)
      → Meets K E Q (m q.token)
      → Leaves q E Q (on_token m q)
  unfolding on_token
  on_token-Leaves E Q q m h = put_token-Leaves E Q q (m q.token) h

  -- addTask either takes the number of lastID for the task, puts the task behind the pending ones
  -- and advances the number; or it says OS_ERROR and leaves the tasks as they are, the number
  -- perhaps used up. Nothing but the token of the queue changes. The loops have more rounds than
  -- lastID has rows.
  pub add_task-Leaves :
      (task : Task) (q : Queue S P)
      → length (tables q).last_id < S.rounds
      → Leaves q (NotAdded Fault (tables q)) (Added task (tables q)) (add_task task q)
  unfolding add_task
  add_task-Leaves task q h =
      on_token-Leaves (NotAdded Fault (tables q)) (Added task (tables q)) q _
        (add_task-Meets K task q.token h)

  -- removeTask refuses the ID of the current task and does nothing then; it takes the rows with any
  -- other ID out of pending, whether there are any or not, or fails in SQLite and changes no table;
  -- all but the token of the queue stays.
  pub remove_task-Leaves :
      (id : ℤ) (q : Queue S P)
      → ((id ≡ q.current_task.id) × (remove_task id q ≡ (err invalid_argument, q)))
        ⊎ ((id ≢ q.current_task.id)
            × Leaves q
                (λ c w. ((c ≡ os_error) ⊎ (c ≡ not_found)) × (w ≡ tables q) × Fault)
                (λ _ w.
                  w ≡ record (tables q) { pending = without_id (to_int32 id) (tables q).pending })
                (remove_task id q))
  unfolding remove_task
  remove_task-Leaves id q = elim (Bool-cases (int_eq id q.current_task.id)) [
    | inl same ↦ inl ((int_eq_iff id q.current_task.id).0 same, rw same)
    | inr other ↦ inr (
      (λ e. cc (other, (int_eq_iff id q.current_task.id).1 e)),
      rw other (
          on_token-Leaves (λ c w. ((c ≡ os_error) ⊎ (c ≡ not_found)) × (w ≡ tables q) × Fault)
            (λ _ w. w ≡ record (tables q) { pending = without_id (to_int32 id) (tables q).pending })
            q (delete_from_pending id) (delete_from_pending-Meets K id q.token)),
    )
  ]

  -- A successful add_task, taken apart.
  pub added :
      (task : Task) (q q' : Queue S P) (n : ℕ) (id : ℤ)
      → 1 < S.rounds
      → IsValid n (tables q)
      → add_task task q ≡ (ok id, q')
      → (id ≡ pos n) × Added task (tables q) id (tables q') × SameButToken q q'
  added task q q' n id rounds valid runs =
      let h =
        subst (Leaves q (NotAdded Fault (tables q)) (Added task (tables q))) runs
          (add_task-Leaves task q (omega (arith, ap length valid.next))) in
      (cc (h.0.0, valid.next), h.0, h.1)

  -- After an addTask that succeeded on well-formed tables, pendingDetails of its number gives the
  -- task as it was given, with the number; or it says OS_ERROR where SQLite fails. This is for
  -- arguments that survive the text column, an exit code of 32 bits, and more rounds of the loops
  -- than pending tasks and two.
  pub pending_details-add_task :
      (task : Task) (q q' : Queue S P) (n : ℕ) (id : ℤ)
      → length (tables q).pending + 2 < S.rounds
      → IsValid n (tables q)
      → IsRepresentable task.args
      → IsInt32 task.exit_code
      → add_task task q ≡ (ok id, q')
      → Leaves q'
          (λ c w. (c ≡ os_error) × Fault)
          (λ out w. out ≡ record task { id = id })
          (pending_details id q')
  unfolding pending_details
  pending_details-add_task task q q' n id rounds valid args code runs =
      let (number, new, same) = added task q q' n id (omega arith) valid runs in
      let found : hits pending_table id (tables q') ≡ entry_of_task (record task { id = id }) ∷ [] =
        subst
          (λ m.
            Added task (tables q) m (tables q')
            → hits pending_table m (tables q') ≡ entry_of_task (record task { id = m }) ∷ [])
          (sym number) (hits-Added task n (tables q) (tables q') valid) new in
      let whole : task_of_entry (entry_of_task (record task { id = id }))
          ≡ record task { id = id } =
        task-entry (record task { id = id }) args (rw number valid.fits) code in
      let room : length (tables q').pending < S.rounds = omega (
        arith,
        ap (λ (u : Store). length u.pending) new.2,
        length-append (tables q).pending (entry_of_task (record task { id = id }) ∷ []),
      ) in
      on_token-Leaves (λ c w. (c ≡ os_error) × Fault) (λ out w. out ≡ record task { id = id }) q'
        (task_details "pending" id)
        (Ends-mono
          (λ c t'. NoDetails Fault (hits pending_table id (tables q')) (tables q') c (view t'.db))
          (λ c t'. (c ≡ os_error) × Fault)
          (λ out t'. HasDetails (hits pending_table id (tables q')) (tables q') out (view t'.db))
          (λ out t'. out ≡ record task { id = id }) (task_details "pending" id q'.token)
          (task_details-Meets K pending_table id q'.token room)
          (λ c t' h. elim h.0 [ inl e ↦ e | inr e ↦ absurd (cc (sym found ∙ e.1)) ])
          (λ out t' h. h.1 ∙ ap (last_task empty_task) found ∙ whole))
