-- ===== src/Queue/Locks/Deadlock.antt =====
-- mainLoopFin takes the two mutexes in the other order.
use simple_task_queue.Common.{ℕ, ◌≡◌, ◌≢◌, refl, none, some, List, [], ◌∷◌, arith}
use simple_task_queue.Queue.Locks.{
  fin_locks, remove_locks, Mutex, token_mutex, current_task_mutex, Action, take_lock, drop_lock,
  Call, on_remove, on_fin, System, put_owner, put_todo, Step, begins, takes, drops, Reach, and_then,
}
use simple_task_queue.Queue.Locks.Safety.{Call-IsFresh, Inv, Reach-Inv}

-- Two threads that wait for one another: `i` in mainLoopFin, `j` in a call that took the token first.
pub record Blocked (i j : ℕ) (s : System) : Type 0 where
  pub rest_i : List Action
  pub rest_j : List Action
  pub waits_i : s.todo i ≡ take_lock token_mutex ∷ rest_i
  pub waits_j : s.todo j ≡ take_lock current_task_mutex ∷ rest_j
  pub held_i : s.owner current_task_mutex ≡ some i
  pub held_j : s.owner token_mutex ≡ some j

-- What may come after a system.
pub data Later (s : System) : System → Type 0 where
  now : Later s s
  later : {t u : System} → Later s t → Step Call t u → Later s u

reaches : {s t : System} → Reach Call s → Later s t → Reach Call t
reaches r now = r
reaches r (later l st) = and_then (reaches r l) st

abbrev fin_rest : List Action
fin_rest = take_lock token_mutex ∷ drop_lock token_mutex ∷ drop_lock current_task_mutex ∷ []

abbrev pub remove_rest : List Action
remove_rest =
    take_lock current_task_mutex ∷ drop_lock current_task_mutex ∷ drop_lock token_mutex ∷ []

module _ (i j : ℕ) where
  Step-Blocked : {s t : System} → Inv s → Step Call s t → Blocked i j s → Blocked i j t
  Step-Blocked {s} v (begins k l e c) b = record {
    rest_i = b.rest_i;
    rest_j = b.rest_j;
    waits_i = ground (arith, b.waits_i);
    waits_j = ground (arith, b.waits_j);
    held_i = b.held_i;
    held_j = b.held_j;
  }
  Step-Blocked {s} v (takes k token_mutex l e free) b = absurd (cc (free, b.held_j))
  Step-Blocked {s} v (takes k current_task_mutex l e free) b = absurd (cc (free, b.held_i))
  Step-Blocked {s} v (drops k m l e) b = record {
    rest_i = b.rest_i;
    rest_j = b.rest_j;
    waits_i = ground (arith, b.waits_i);
    waits_j = ground (arith, b.waits_j);
    held_i = ground (arith, b.held_i, v.owned m k, b.waits_i);
    held_j = ground (arith, b.held_j, v.owned m k, b.waits_j);
  }

  Later-Blocked : {s t : System} → Reach Call s → Later s t → Blocked i j s → Blocked i j t
  Later-Blocked r now b = b
  Later-Blocked r (later l st) b =
      Step-Blocked (Reach-Inv Call-IsFresh (reaches r l)) st (Later-Blocked r l b)

  -- The threads begin mainLoopFin and removeTask, and each takes its first mutex.
  abbrev pub crossed_after : System → System
  crossed_after s = record {
    owner = put_owner token_mutex (some j) (put_owner current_task_mutex (some i) s.owner);
    todo =
        put_todo j remove_rest
          (put_todo i fin_rest (put_todo j remove_locks (put_todo i fin_locks s.todo)));
  }

  crossing :
      {s : System}
      → i ≢ j
      → s.todo i ≡ []
      → s.todo j ≡ []
      → ((m : Mutex) → s.owner m ≡ none)
      → Later s (crossed_after s)
  crossing {s} apart rest_i rest_j free =
      later
        (later
          (later (later now (begins i fin_locks rest_i on_fin))
            (begins j remove_locks (ground (arith, rest_j)) on_remove))
          (takes i current_task_mutex fin_rest (ground arith) (free current_task_mutex)))
        (takes j token_mutex remove_rest (ground arith) (ground (arith, free token_mutex)))

  crossed-Blocked : (s : System) → i ≢ j → Blocked i j (crossed_after s)
  crossed-Blocked s apart = record {
    rest_i = drop_lock token_mutex ∷ drop_lock current_task_mutex ∷ [];
    rest_j = drop_lock current_task_mutex ∷ drop_lock token_mutex ∷ [];
    waits_i = ground arith;
    waits_j = ground arith;
    held_i = refl;
    held_j = refl;
  }

  -- Wherever both mutexes are free and two threads are in no call, they may come to wait for one
  -- another for ever: the one, in mainLoopFin, has the mutex of the current task and wants that of the
  -- token, and the other, in removeTask, has the token's and wants that of the current task. From then
  -- on this stays so, whatever all threads do.
  pub Reach-Blocked :
      {s : System}
      → Reach Call s
      → i ≢ j
      → s.todo i ≡ []
      → s.todo j ≡ []
      → ((m : Mutex) → s.owner m ≡ none)
      → (t : System) × Later s t × Blocked i j t × ((u : System) → Later t u → Blocked i j u)
  Reach-Blocked {s} r apart rest_i rest_j free =
      let way = crossing apart rest_i rest_j free in
      (
        crossed_after s,
        way,
        crossed-Blocked s apart,
        (λ u l. Later-Blocked (reaches r way) l (crossed-Blocked s apart)),
      )
