-- ===== src/Queue/Locks/Examples.antt =====
-- A thread that removes a task while the thread of the queue is in mainLoopFin.
use simple_task_queue.Common.{List, refl, [], ◌∷◌, arith}
use simple_task_queue.Queue.Locks.{
  put_todo, token_mutex, current_task_mutex, Action, take_lock, drop_lock, remove_locks, System,
  idle, begins, takes, drops, Reach, at_start, and_then,
}
use simple_task_queue.Queue.Locks.Progress.{Ordered, remove_first, Moves, Reach-Moves}
use simple_task_queue.Queue.Locks.Deadlock.{crossed_after, Blocked, Later, Reach-Blocked}

Reach-Blocked_example :
    (t : System) × Later idle t × Blocked 0 1 t × ((u : System) → Later t u → Blocked 0 1 u)
Reach-Blocked_example = Reach-Blocked 0 1 at_start (omega arith) refl refl (λ m. refl)

-- Two threads that remove tasks, the first one in its call.
abbrev remove_rest : List Action
remove_rest =
    take_lock current_task_mutex ∷ drop_lock current_task_mutex ∷ drop_lock token_mutex ∷ []

abbrev removing : System
removing = record idle { todo = put_todo 1 remove_locks (put_todo 0 remove_locks idle.todo) }

removing-Reach : Reach Ordered removing
removing-Reach =
    and_then (and_then at_start (begins 0 remove_locks refl remove_first))
      (begins 1 remove_locks refl remove_first)

Reach-Moves_example : Moves removing
Reach-Moves_example = Reach-Moves removing-Reach 0 (λ e. cc e)

-- Where the threads 0 and 1 wait for one another no thread can go on with its call.
crossed_stuck : ¬ (Moves (crossed_after 0 1 idle))
crossed_stuck (t, begins i l e c, busy) = busy e
crossed_stuck (t, takes i token_mutex l e free, busy) = cc free
crossed_stuck (t, takes i current_task_mutex l e free, busy) = cc free
crossed_stuck (t, drops i m l e, busy) = ground (arith, e)
