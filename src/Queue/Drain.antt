-- ===== src/Queue/Drain.antt =====
-- model/dao/sqlitequeue.cpp: all rounds of mainLoop, over a reliable SQLite and a process that stops.
use simple_task_queue.Common.{
  ℕ, zero, suc, ◌+◌, ◌<◌, ◌≡◌, refl, sym, ap, ◌∙◌, true, false, List, [], ◌∷◌, ◌++◌, map, ℤ, arith,
  length, subst, append-nil, append_assoc,
}
use simple_task_queue.Task.{Task}
use simple_task_queue.Exec.{Result, ok, err, hang, Ends, Ends-mono, Ends-continue, continue}
use simple_task_queue.Sqlite.{Sqlite}
use simple_task_queue.Process.{Process}
use simple_task_queue.Queue.{Queue}
use simple_task_queue.Queue.MainLoop.{main_loop_init, after_init, round, main_loop}
use simple_task_queue.Queue.Contract.{Contract, Store, Entry}
use simple_task_queue.Queue.Methods.{tables}
use simple_task_queue.Queue.Valid.{IsValid}
use simple_task_queue.Queue.Keeps.{IsValid-finish}
use simple_task_queue.Queue.Moves.{Idled, main_loop_init-none}
use simple_task_queue.Queue.Rounds.{Cooperates, finished, after_first, Ran, round-Ran}

-- The tables when all pending tasks have run.
abbrev all_finished : (Task → ℤ) → Store → Store
all_finished code v = record v { pending = []; done = v.done ++ map (finished code) v.pending }

nothing_left : (code : Task → ℤ) (v : Store) → v.pending ≡ [] → v ≡ all_finished code v
nothing_left code v gone =
    let now : v ≡ record v { pending = [] } = ap (λ ps. record v { pending = ps }) gone in
    let nil = ap (λ ds. record v { pending = []; done = ds }) (sym (append-nil v.done)) in
    let mapped =
      ap (λ ps. record v { pending = []; done = v.done ++ map (finished code) ps }) (sym gone) in
    now ∙ nil ∙ mapped

one_more :
    (code : Task → ℤ) (v : Store) (e : Entry) (es : List Entry)
    → v.pending ≡ e ∷ es
    → all_finished code (after_first code e es v) ≡ all_finished code v
one_more code v e es first =
    let moved =
      ap (λ ds. record v { pending = []; done = ds })
        (append_assoc v.done (finished code e ∷ []) (map (finished code) es)) in
    let mapped =
      ap (λ ps. record v { pending = []; done = v.done ++ map (finished code) ps }) (sym first) in
    moved ∙ mapped

module _ {S : Sqlite} {P : Process} where
  main_loop_on :
      (waits n : ℕ) (q : Queue S P)
      → q.start_flag ≡ true
      → main_loop waits (suc n) q ≡ continue (λ _. main_loop waits n) (round waits q)
  unfolding main_loop
  main_loop_on waits n q on =
      ap
        (λ b. elim b [
          | true ↦ continue (λ _. main_loop waits n) (round waits q)
          | false ↦ (ok tt, record q { is_running = false })
        ])
        on

  main_loop_off :
      (waits n : ℕ) (q : Queue S P)
      → q.start_flag ≡ false
      → main_loop waits (suc n) q ≡ (ok tt, record q { is_running = false })
  unfolding main_loop
  main_loop_off waits n q off =
      ap
        (λ b. elim b [
          | true ↦ continue (λ _. main_loop waits n) (round waits q)
          | false ↦ (ok tt, record q { is_running = false })
        ])
        off

module _ {S : Sqlite} {P : Process} (K : Contract S ⊥) where
  module _ (waits : ℕ) (Idle : P.State → Type 0) (code : Task → ℤ)
      (runs : Cooperates P waits Idle code) where
    -- The loop has ended and all tasks are done.
    abbrev pub Drained : Queue S P → Queue S P → Type 0
    Drained q q' =
        (tables K q' ≡ all_finished code (tables K q))
        × (q'.is_running ≡ false)
        × (q'.start_flag ≡ false)

    none-Drained :
        (n : ℕ) (q : Queue S P) (r : Result (Unit {0}) × Queue S P)
        → (tables K q).pending ≡ []
        → Ends (λ _. Idled K q) (λ _ _. ⊥) r
        → Ends
            (λ _ _. ⊥)
            (λ _. Drained q)
            (continue (λ _. main_loop waits (suc n)) (after_init waits r))
    unfolding after_init
    none-Drained n q (ok x, q1) gone h = absurd h
    none-Drained n q (err c, q1) gone (same, off, process, current) =
        subst (Ends (λ _ _. ⊥) (λ _. Drained q)) (sym (main_loop_off waits n q1 off))
          (same ∙ nothing_left code (tables K q) gone, refl, off)
    none-Drained n q (hang, q1) gone h = absurd h

    still-IsValid :
        (m : ℕ) (q q' : Queue S P) (e : Entry) (es : List Entry)
        → IsValid m (tables K q)
        → (tables K q).pending ≡ e ∷ es
        → tables K q' ≡ after_first code e es (tables K q)
        → IsValid m (tables K q')
    still-IsValid m q q' e es valid first now =
        subst (IsValid m) (sym now)
          (IsValid-finish m (tables K q) e (finished code e) es valid first refl)

    drained_more :
        (q q' : Queue S P) (e : Entry) (es : List Entry)
        → (tables K q).pending ≡ e ∷ es
        → tables K q' ≡ after_first code e es (tables K q)
        → {w : Store} → w ≡ all_finished code (tables K q')
        → w ≡ all_finished code (tables K q)
    drained_more q q' e es first now end =
        end ∙ ap (all_finished code) now ∙ one_more code (tables K q) e es first

    -- With SQLite reliable, the tables well-formed, the start flag on, and a process that is idle
    -- and can start and finish every task, mainLoop ends: all pending tasks have run in their order
    -- and stand in this order behind the done ones, each with its exit code; both flags are off.
    -- The number of rounds is more than that of the pending tasks and one.
    pub main_loop-Drained :
        (n m : ℕ) (es : List Entry) (q : Queue S P)
        → IsValid m (tables K q)
        → Idle q.process
        → q.start_flag ≡ true
        → (tables K q).pending ≡ es
        → length es + 1 < n
        → Ends (λ _ _. ⊥) (λ _. Drained q) (main_loop waits n q)
    unfolding round
    main_loop-Drained zero m es q valid idle on first room = absurd (omega (arith, room))
    main_loop-Drained (suc zero) m es q valid idle on first room = absurd (omega (arith, room))
    main_loop-Drained (suc (suc n)) m [] q valid idle on first room =
        subst (Ends (λ _ _. ⊥) (λ _. Drained q)) (sym (main_loop_on waits (suc n) q on))
          (none-Drained n q (main_loop_init q) first (main_loop_init-none K q first))
    main_loop-Drained (suc (suc n)) m (e ∷ es) q valid idle on first room =
        subst (Ends (λ _ _. ⊥) (λ _. Drained q)) (sym (main_loop_on waits (suc n) q on)) (
          Ends-continue (λ _ _. ⊥) (λ _. Ran K waits Idle code runs q e es) (λ _. Drained q)
            (λ _. main_loop waits (suc n)) (round waits q)
            (round-Ran K waits Idle code runs m q e es valid idle first)
            (λ _ q' ran.
              Ends-mono {A = Unit {0}} (λ _ _. ⊥) (λ _ _. ⊥) (λ _. Drained q') (λ _. Drained q)
                (main_loop waits (suc n) q')
                (main_loop-Drained (suc n) m es q' (still-IsValid m q q' e es valid first ran.0)
                  ran.1 (ran.2 ∙ on) (ap (λ (v : Store). v.pending) ran.0) (omega (arith, room)))
                (λ _ _ f. f) (λ _ q2 h. (drained_more q q' e es first ran.0 h.0, h.1, h.2))))
