-- ===== src/Queue/Refinement.antt =====
-- model/dao/sqlitequeue.cpp: the rounds of mainLoop, and sequences of calls and rounds, against
-- Queue/Spec.
use simple_task_queue.Common.{
  ℕ, ◌+◌, ◌<◌, ◌≡◌, refl, sym, ap, ◌∙◌, subst, List, [], ◌∷◌, ℤ, length, arith,
}
use simple_task_queue.Task.{Task}
use simple_task_queue.Exec.{Result, ok, err, hang, Ends, Ends-mono}
use simple_task_queue.Sqlite.{Sqlite}
use simple_task_queue.Process.{Process}
use simple_task_queue.Queue.{Queue}
use simple_task_queue.Queue.MainLoop.{round, main_loop_init, after_init}
use simple_task_queue.Queue.Contract.{Contract, Store, Entry}
use simple_task_queue.Queue.Valid.{IsValid}
use simple_task_queue.Queue.Keeps.{IsValid-finish}
use simple_task_queue.Queue.Methods.{tables}
use simple_task_queue.Queue.Moves.{Idled, main_loop_init-none}
use simple_task_queue.Queue.Rounds.{after_first, Cooperates, finished, Ran, round-Ran}
use simple_task_queue.Queue.Spec.{
  Spec, store_of, Change, adds, removes, clears_pending, clears_done, next_round, run_first,
  spec_step, spec_run, perform, perform_all, Ends-state, spec_next,
}
use simple_task_queue.Queue.Implements.{
  Implements, add-Implements, clear_pending-Implements, clear_finished-Implements,
  remove-Implements,
}

module _ {S : Sqlite} {P : Process} (K : Contract S ⊥) (waits : ℕ) (Idle : P.State → Type 0)
    (code : Task → ℤ) (runs : Cooperates P waits Idle code) where
  -- A round with nothing to do.
  idle_round :
      (s : Spec) (q : Queue S P) (r : Result (Unit {0}) × Queue S P)
      → Implements K waits Idle code runs s q
      → Ends (λ _. Idled K q) (λ _ _. ⊥) r
      → Implements K waits Idle code runs s (after_init waits r).1
  unfolding after_init
  idle_round s q (ok x, q1) h none = absurd none
  idle_round s q (err c, q1) (same, valid, idle, current) (now, off, process, task) =
      (now ∙ same, valid, rw process idle, task ∙ current)
  idle_round s q (hang, q1) h none = absurd none

  round_at :
      (s : Spec) (q : Queue S P) (ps : List Entry)
      → s.pending ≡ ps
      → Implements K waits Idle code runs s q
      → Implements K waits Idle code runs (run_first code ps s) (round waits q).1
  unfolding round
  round_at s q [] first h =
      idle_round s q (main_loop_init q) h
        (main_loop_init-none K q (ap (λ (v : Store). v.pending) h.0 ∙ first))
  round_at s q (e ∷ es) first h =
      let s' = run_first code (e ∷ es) s in
      let valid : IsValid s.next (tables K q) = subst (IsValid s.next) (sym h.0) h.1 in
      Ends-state (Implements K waits Idle code runs s') (round waits q) (
        Ends-mono {A = Unit {0}} (λ _ _. ⊥) (λ _. Implements K waits Idle code runs s')
          (λ _. Ran K waits Idle code runs q e es) (λ _. Implements K waits Idle code runs s')
          (round waits q)
          (round-Ran K waits Idle code runs s.next q e es valid h.2
            (ap (λ (v : Store). v.pending) h.0 ∙ first))
          (λ _ _ f. absurd f)
          (λ _ q' ran. (
            ran.0 ∙ ap (after_first code e es) h.0,
            IsValid-finish s.next (store_of s) e (finished code e) es h.1 first refl,
            ran.1,
            ran.3,
          )))

  step-Implements :
      (c : Change) (s : Spec) (q : Queue S P)
      → 1 < S.rounds
      → s.next + 1 < 2147483648
      → Implements K waits Idle code runs s q
      → Implements K waits Idle code runs (spec_step code c s) (perform waits c q)
  step-Implements (adds task) s q rounds fits h =
      add-Implements K waits Idle code runs s task q rounds fits h
  step-Implements (removes id) s q rounds fits h = remove-Implements K waits Idle code runs s id q h
  step-Implements clears_pending s q rounds fits h =
      clear_pending-Implements K waits Idle code runs s q h
  step-Implements clears_done s q rounds fits h =
      clear_finished-Implements K waits Idle code runs s q h
  step-Implements next_round s q rounds fits h = round_at s q s.pending refl h

  -- With SQLite reliable and a process that can start and finish every task, any sequence of steps,
  -- each an addTask, removeTask, clearPending or clearFinished or a whole round of mainLoop, takes a
  -- queue that is idle at a state of the specification to the state that the specification gives for
  -- the sequence, as long as the numbers fit into an `int`; the queue is idle there with well-formed tables.
  pub perform_all-Implements :
      (cs : List Change) (s : Spec) (q : Queue S P)
      → 1 < S.rounds
      → s.next + length cs < 2147483648
      → Implements K waits Idle code runs s q
      → Implements K waits Idle code runs (spec_run code cs s) (perform_all waits cs q)
  perform_all-Implements [] s q rounds fits h = h
  perform_all-Implements (c ∷ cs) s q rounds fits h =
      perform_all-Implements cs (spec_step code c s) (perform waits c q) rounds
        (omega (arith, fits, spec_next code c s))
        (step-Implements c s q rounds (omega (arith, fits)) h)
