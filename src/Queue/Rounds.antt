-- ===== src/Queue/Rounds.antt =====
-- One round of mainLoop over a reliable SQLite and a process that runs each task to its end.
use simple_task_queue.Task.{empty_task}
use simple_task_queue.Common.{
  ℕ, zero, suc, ◌<◌, ◌≡◌, refl, ap, ◌∙◌, Bool, true, false, some, List, [], ◌∷◌, ◌++◌, ℤ, to_int32,
  subst, int_of_bool, bool_of_int, int_eq_iff,
}
use simple_task_queue.Task.{Task}
use simple_task_queue.Exec.{Result, ok, err, hang, Exec, Ends, Ends-mono}
use simple_task_queue.Sqlite.{Sqlite}
use simple_task_queue.Process.{Process}
use simple_task_queue.Queue.{Queue}
use simple_task_queue.Queue.MainLoop.{
  main_loop_init, wait_loop, ended, after_start, after_init, round,
}
use simple_task_queue.Queue.Contract.{Contract, Store, Entry, has_id, without_id}
use simple_task_queue.Queue.TableLaws.{task_of_entry, entry_of_task}
use simple_task_queue.Queue.Methods.{tables}
use simple_task_queue.Queue.Valid.{
  IsValid, IsBelow, below_small, AllBelow, Distinct, Apart, without_id-absent,
}
use simple_task_queue.Args.RoundTrip.{concat-split}
use simple_task_queue.Queue.Moves.{Begun, Moved, main_loop_init-Begun, main_loop_fin-Moved}

-- The looks at a running process come to an end within `n` of them.
pub data Stops (P : Process) : ℕ → P.State → P.State → Type 0 where
  stopped : {n : ℕ} {s s' : P.State} → P.is_running s ≡ (false, s') → Stops P (suc n) s s'
  still_runs :
      {n : ℕ} {s s' s'' : P.State}
      → P.is_running s ≡ (true, s')
      → Stops P n s' s''
      → Stops P (suc n) s s''

-- From an idle state every task can be started, stops within `n` looks with the exit code that
-- `code` gives, and leaves an idle state.
pub record Cooperates (P : Process) (n : ℕ) (Idle : P.State → Type 0) (code : Task → ℤ)
    : Type 0 where
  pub runs :
      (t : Task) (s : P.State)
      → Idle s
      → (s1 : P.State) × (s2 : P.State) × (s3 : P.State) × (P.start t s ≡ (false, s1))
        × Stops P n s1 s2
        × (P.exit_code s2 ≡ (some (code t), s3))
        × Idle s3

-- What is stored in `done` for a pending task.
abbrev pub finished : (Task → ℤ) → Entry → Entry
finished code e = record e {
  exit_code = to_int32 (code (task_of_entry e));
  is_success = int_of_bool (bool_of_int e.is_success);
}

finished-entry :
    (code : Task → ℤ) (n : ℕ) (e : Entry)
    → n < 2147483648
    → IsBelow n e.id
    → entry_of_task (record (task_of_entry e) { exit_code = code (task_of_entry e) })
      ≡ finished code e
finished-entry code n e fits below =
    rw ((concat-split e.args).0, below_small n e.id fits below) refl

-- The tables after the first pending task has run.
abbrev pub after_first : (Task → ℤ) → Entry → List Entry → Store → Store
after_first code e es v = record v { pending = es; done = v.done ++ finished code e ∷ [] }

-- The deletion by the ID of the first entry takes out this entry alone.
without_first :
    (e : Entry) (es : List Entry) → has_id e.id es ≡ false → without_id e.id (e ∷ es) ≡ es
without_first e es h = rw ((int_eq_iff e.id e.id).1 refl) (without_id-absent e.id es h)

module _ {S : Sqlite} {P : Process} (K : Contract S ⊥) where
  open K use {view}

  -- A look at the process, and what the loop does then.
  abbrev look : ℕ → Bool × P.State → Exec (Queue S P) (Unit {0})
  look n r q =
      let (running, q') = ended r q in elim running [ true ↦ wait_loop n q' | false ↦ (ok tt, q') ]

  wait_loop-Stops :
      (n : ℕ) (s s' : P.State) (q : Queue S P)
      → Stops P n s s'
      → wait_loop n (record q { process = s }) ≡ (ok tt, record q { process = s' })
  unfolding wait_loop ended
  wait_loop-Stops zero s s' q stops = elim stops [ ]
  wait_loop-Stops (suc n) s s' q (stopped e) = ap (λ r. look n r (record q { process = s })) e
  wait_loop-Stops (suc n) s s' q (still_runs {s' = s''} e more) =
      ap (λ r. look n r (record q { process = s })) e ∙ wait_loop-Stops n s'' s' q more

  after_start-Moved :
      (n : ℕ) (q : Queue S P) (w : Store) (x : ℤ) (s1 s2 s3 : P.State)
      → Stops P n s1 s2
      → P.exit_code s2 ≡ (some x, s3)
      → record (tables K q) {
        pending = without_id (to_int32 q.current_task.id) (tables K q).pending;
      }
        ≡ w
      → has_id (to_int32 q.current_task.id) w.done ≡ false
      → Ends
          (λ _ _. ⊥)
          (λ _.
            Moved K q
              (record w {
                done = w.done ++ entry_of_task (record q.current_task { exit_code = x }) ∷ [];
              })
              s3)
          (after_start n (false, s1) q)
  unfolding after_start
  after_start-Moved n q w x s1 s2 s3 stops code same free =
      rw (wait_loop-Stops n s1 s2 q stops)
        (main_loop_fin-Moved K (record q { process = s2 }) w x s3 code same free)

  module _ (waits : ℕ) (Idle : P.State → Type 0) (code : Task → ℤ)
      (runs : Cooperates P waits Idle code) where
    -- A round has run the first pending task.
    abbrev pub Ran : Queue S P → Entry → List Entry → Queue S P → Type 0
    Ran q e es q' =
        (tables K q' ≡ after_first code e es (tables K q))
        × Idle q'.process
        × (q'.start_flag ≡ q.start_flag)
        × (q'.current_task ≡ empty_task)

    Begun-Ran :
        (m : ℕ) (q q1 : Queue S P) (e : Entry) (es : List Entry)
        → IsValid m (tables K q)
        → Idle q.process
        → (tables K q).pending ≡ e ∷ es
        → Begun K q e q1
        → Ends
            (λ _ _. ⊥)
            (λ _. Ran q e es)
            (after_start waits (P.start q1.current_task q1.process) q1)
    Begun-Ran m q q1 e es valid idle first (same, current, process, flag) =
        let (s1, s2, s3, started, stops, exits, idle') =
          runs.runs (task_of_entry e) q.process idle in
        let below : AllBelow m (e ∷ es) = subst (AllBelow m) first valid.pending_below in
        let distinct : Distinct (e ∷ es) = subst Distinct first valid.pending_distinct in
        let apart : Apart (e ∷ es) (tables K q).done =
          subst (λ ps. Apart ps (tables K q).done) first valid.apart in
        let small : to_int32 e.id ≡ e.id = below_small m e.id valid.fits below.0 in
        let begins : P.start q1.current_task q1.process ≡ (false, s1) =
          rw (current, process) started in
        let id : to_int32 q1.current_task.id ≡ e.id =
          ap (λ (t : Task). to_int32 t.id) current ∙ small in
        let left : record (tables K q1) {
          pending = without_id (to_int32 q1.current_task.id) (tables K q1).pending;
        }
            ≡ record (tables K q) { pending = es } =
          rw (same, id, first)
            (ap (λ ps. record (tables K q) { pending = ps }) (without_first e es distinct.0)) in
        let free : has_id (to_int32 q1.current_task.id) (tables K q).done ≡ false = rw id apart.0 in
        let stored : entry_of_task (record q1.current_task { exit_code = code (task_of_entry e) })
            ≡ finished code e =
          ap (λ (t : Task). entry_of_task (record t { exit_code = code (task_of_entry e) })) current
          ∙ finished-entry code m e valid.fits below.0 in
        rw begins (
          Ends-mono {A = Unit {0}} (λ _ _. ⊥) (λ _ _. ⊥) _ (λ _. Ran q e es)
            (after_start waits (false, s1) q1)
            (after_start-Moved waits q1 (record (tables K q) { pending = es })
              (code (task_of_entry e)) s1 s2 s3 stops exits left free)
            (λ _ _ f. f)
            (λ _ q' h. (
              h.0
                  ∙ ap
                      (λ x. record (tables K q) {
                        pending = es;
                        done = (tables K q).done ++ x ∷ [];
                      })
                      stored,
              rw h.1 idle',
              h.2 ∙ flag,
              h.3,
            )))

    init-Ran :
        (m : ℕ) (q : Queue S P) (e : Entry) (es : List Entry) (r : Result (Unit {0}) × Queue S P)
        → IsValid m (tables K q)
        → Idle q.process
        → (tables K q).pending ≡ e ∷ es
        → Ends (λ _ _. ⊥) (λ _. Begun K q e) r
        → Ends (λ _ _. ⊥) (λ _. Ran q e es) (after_init waits r)
    unfolding after_init
    init-Ran m q e es (ok x, q1) valid idle first h = Begun-Ran m q q1 e es valid idle first h
    init-Ran m q e es (err c, q1) valid idle first h = absurd h
    init-Ran m q e es (hang, q1) valid idle first h = absurd h

    pub round-Ran :
        (m : ℕ) (q : Queue S P) (e : Entry) (es : List Entry)
        → IsValid m (tables K q)
        → Idle q.process
        → (tables K q).pending ≡ e ∷ es
        → Ends (λ _ _. ⊥) (λ _. Ran q e es) (round waits q)
    unfolding round
    round-Ran m q e es valid idle first =
        init-Ran m q e es (main_loop_init q) valid idle first (main_loop_init-Begun K q e es first)
