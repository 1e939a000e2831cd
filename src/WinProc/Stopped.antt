-- ===== src/WinProc/Stopped.antt =====
-- model/proc/winproc.cpp: the exit code of a process that stop has ended.
use simple_task_queue.Common.{
  ℕ, ◌≡◌, refl, ap, ◌∙◌, Bool, true, false, Bool-cases, inl, inr, Option, none, some, pos,
}
use simple_task_queue.Task.{Task}
use simple_task_queue.WinProc.{
  WinOs, WinProc, reset_handle, stop, look_at, is_running, exit_code_of, exit_code, after_child,
  after_console, after_stdin, after_stdout, start_idle, start, create_child_process, still_active,
}

module _ {O : WinOs} where
  -- A start that has worked leaves the code of a process that runs.
  abbrev Active : Bool × WinProc O → Type 0
  Active r = r.0 ≡ false → r.1.exit_code ≡ pos still_active

  child-Active : (r : Bool × WinProc O) → Active (after_child r)
  unfolding after_child
  child-Active (true, p) h = absurd (cc h)
  child-Active (false, p) h = refl

  console-Active :
      (task : Task) (p : WinProc O) (r : Option ℕ × O.State) → Active (after_console task p r)
  unfolding after_console
  console-Active task p (none, s) h = absurd (cc h)
  console-Active task p (some c, s) h =
      child-Active (create_child_process task (record p { console = some c; os = s })) h

  stdin-Active :
      (task : Task) (p : WinProc O) (r : Option (ℕ × ℕ) × O.State) → Active (after_stdin task p r)
  unfolding after_stdin
  stdin-Active task p (none, s) h = absurd (cc h)
  stdin-Active task p (some (x, w), s) h =
      console-Active task (record p { stdin_read = some x; stdin_write = some w; os = s })
        (O.create_console (some x) p.stdout_write s) h

  stdout-Active :
      (task : Task) (p : WinProc O) (r : Option (ℕ × ℕ) × O.State) → Active (after_stdout task p r)
  unfolding after_stdout
  stdout-Active task p (none, s) h = absurd (cc h)
  stdout-Active task p (some (x, w), s) h =
      stdin-Active task (record p { stdout_read = some x; stdout_write = some w; os = s })
        (O.create_pipe s) h

  start_idle-Active : (task : Task) (r : Bool × WinProc O) → Active (start_idle task r)
  unfolding start_idle
  start_idle-Active task (true, p) = λ h. absurd (cc h)
  start_idle-Active task (false, p) = elim (Bool-cases (O.is_admin p.os)) [
    | inl e ↦ rw e (λ h. absurd (cc h))
    | inr e ↦ rw e (stdout-Active task (reset_handle p) (O.create_pipe (reset_handle p).os))
  ]

  start-Active : (task : Task) (p : WinProc O) → Active (start task p)
  unfolding start
  start-Active task p = start_idle-Active task (is_running p)

  not_running : (p : WinProc O) → (is_running (stop p)).0 ≡ false
  unfolding is_running look_at stop reset_handle
  not_running p = refl

  stopped-exit_code : (p : WinProc O) → exit_code (stop p) ≡ (some p.exit_code, stop p)
  unfolding exit_code exit_code_of is_running look_at stop reset_handle
  stopped-exit_code p = refl

  -- A process that was started and is then stopped, without a look in between, does not run, and
  -- exitCode succeeds with 259, the code STILL_ACTIVE of a process that runs.
  pub exit_code-stop :
      (task : Task) (p : WinProc O)
      → (start task p).0 ≡ false
      → ((is_running (stop (start task p).1)).0 ≡ false)
        × ((exit_code (stop (start task p).1)).0 ≡ some (pos 259))
  exit_code-stop task p h = (
    not_running (start task p).1,
    ap (λ r. r.0) (stopped-exit_code (start task p).1) ∙ ap some (start-Active task p h),
  )
