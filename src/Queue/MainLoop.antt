-- ===== src/Queue/MainLoop.antt =====
-- model/dao/sqlitequeue.cpp: mainLoop, mainLoopInit and mainLoopFin, which the queue's thread runs.
use simple_task_queue.Common.{
  ℕ, zero, suc, Bool, true, false, Option, none, some, ◌||◌, ℤ, ◌==◌, if◌then◌else◌,
}
use simple_task_queue.Task.{empty_task}
use simple_task_queue.ErrMsg.{invalid_argument, os_error}
use simple_task_queue.Exec.{Result, ok, err, hang, Exec, continue}
use simple_task_queue.Sqlite.{Sqlite, row, done, error, Outcome}
use simple_task_queue.Process.{Process}
use simple_task_queue.Queue.{Queue, on_token}
use simple_task_queue.Queue.Tables.{first_task, task_of_row, delete_from_pending, add_task_to_table}

module _ {S : Sqlite} {P : Process} where
  unfoldable pub on_first : Result Outcome × Queue S P → Result (Unit {0}) × Queue S P
  on_first (ok (row r), q) = (ok tt, record q { current_task = task_of_row r })
  on_first (ok done, q) = (err 1, record q { start_flag = false; is_running = false })
  on_first (ok error, q) = (err 1, record q { start_flag = false; is_running = false })
  on_first (err code, q) = (err 1, q)
  on_first (hang, q) = (hang, q)

  unfoldable pub main_loop_init : Exec (Queue S P) (Unit {0})
  unfolding on_first
  main_loop_init q = on_first (on_token first_task q)

  unfoldable give_up : Queue S P → Queue S P
  give_up q = record q { start_flag = false; current_task = empty_task }

  unfoldable pub after_insert : Result (Unit {0}) × Queue S P → Queue S P
  unfolding give_up
  after_insert (ok tt, q) = record q { current_task = empty_task }
  after_insert (_, q) = give_up q

  unfoldable pub insert_done : Queue S P → Queue S P
  unfolding after_insert
  insert_done q = after_insert (on_token (add_task_to_table "done" q.current_task) q)

  unfoldable pub after_delete : Result (Unit {0}) × Queue S P → Queue S P
  unfolding insert_done give_up
  after_delete (ok tt, q) = insert_done q
  after_delete (err code, q) =
      if code == invalid_argument || code == os_error then give_up q else insert_done q
  after_delete (hang, q) = give_up q

  unfoldable pub after_exit : Option ℤ × P.State → Queue S P → Queue S P
  unfolding after_delete give_up
  after_exit (none, process) q = give_up (record q { process = process })
  after_exit (some exit_code, process) q = after_delete (
      on_token (delete_from_pending q.current_task.id) (record q {
        process = process;
        current_task = record q.current_task { exit_code = exit_code };
      }))

  unfoldable pub main_loop_fin : Queue S P → Queue S P
  unfolding after_exit
  main_loop_fin q = after_exit (P.exit_code q.process) q

  unfoldable pub ended : Bool × P.State → Queue S P → Bool × Queue S P
  ended (running, process) q = (running, record q { process = process })

  -- while (m_process->isRunning()) sleep(1);
  unfoldable pub wait_loop : ℕ → Exec (Queue S P) (Unit {0})
  unfolding ended
  wait_loop zero q = (hang, q)
  wait_loop (suc n) q =
      let (running, q') = ended (P.is_running q.process) q in
      elim running [ true ↦ wait_loop n q' | false ↦ (ok tt, q') ]

  unfoldable pub after_start : ℕ → Bool × P.State → Exec (Queue S P) (Unit {0})
  after_start waits (true, process) q =
      (ok tt, record (main_loop_fin (record q { process = process })) { start_flag = false })
  after_start waits (false, process) q =
      continue (λ _ q'. (ok tt, main_loop_fin q'))
        (wait_loop waits (record q { process = process }))

  unfoldable pub after_init : ℕ → Result (Unit {0}) × Queue S P → Result (Unit {0}) × Queue S P
  unfolding after_start
  after_init waits (ok tt, q) = after_start waits (P.start q.current_task q.process) q
  after_init waits (err code, q) = (ok tt, q)
  after_init waits (hang, q) = (hang, q)

  -- One round of the loop; a `continue` ends it.
  unfoldable pub round : ℕ → Exec (Queue S P) (Unit {0})
  unfolding after_init
  round waits q = after_init waits (main_loop_init q)

  -- `n` rounds at most, each with `waits` looks at the process at most.
  unfoldable pub main_loop : ℕ → ℕ → Exec (Queue S P) (Unit {0})
  main_loop waits zero q = (hang, q)
  main_loop waits (suc n) q = elim q.start_flag [
    | true ↦ continue (λ _. main_loop waits n) (round waits q)
    | false ↦ (ok tt, record q { is_running = false })
  ]
