-- ===== src/WinProc/Owns.antt =====
-- model/proc/winproc.cpp: no call loses a handle or closes one twice.
use simple_task_queue.Common.{
  ℕ, ◌≡◌, refl, ◌∙◌, Bool, true, false, Bool-cases, inl, inr, ◌==◌, Option, none, some, List, [],
  ◌∷◌, is_empty, arith, ◌+◌,
}
use simple_task_queue.Task.{Task}
use simple_task_queue.WinProc.{
  WinOs, WinProc, close_console_if_open, reset_handle, stop, after_exit_code, look_at, is_running,
  exit_code_of, exit_code, read_current_output, after_set_console, after_init_attributes,
  after_alloc, prepare_startup_information, after_create_process, command_line, still_active,
  with_attributes, create_child_process, after_child, after_console, after_stdin, after_stdout,
  start_idle, start,
}
use simple_task_queue.WinProc.Handles.{
  Counts, at, both, held, Owns, close_one, close_console, reset_handle-none, reset_handle-Owns,
}

-- A call of the interface, behind init.
pub data WinCall : Type 0 where
  starts : Task → WinCall
  stops looks reads asks : WinCall

unfoldable pub call : {O : WinOs} → WinCall → WinProc O → WinProc O
unfolding start stop is_running read_current_output exit_code
call (starts task) p = (start task p).1
call stops p = stop p
call looks p = (is_running p).1
call reads p = (read_current_output p).1
call asks p = (exit_code p).1

unfoldable pub call_all : {O : WinOs} → List WinCall → WinProc O → WinProc O
unfolding call
call_all [] p = p
call_all (c ∷ cs) p = call_all cs (call c p)

module _ {O : WinOs} (C : Counts O) where
  open C use {opened}

  set_console-keeps :
      (k a : ℕ) (r : Bool × O.State) → opened k (after_set_console O a r).1 ≡ opened k r.1
  unfolding after_set_console
  set_console-keeps k a (true, s) = C.free_keeps k a s
  set_console-keeps k a (false, s) = refl

  init-keeps :
      (k a : ℕ) (c : Option ℕ) (r : Bool × O.State)
      → opened k (after_init_attributes O c a r).1 ≡ opened k r.1
  unfolding after_init_attributes
  init-keeps k a c (true, s) = C.free_keeps k a s
  init-keeps k a c (false, s) = set_console-keeps k a (O.set_console a c s) ∙ C.set_keeps k a c s

  alloc-keeps :
      (k : ℕ) (c : Option ℕ) (r : Option ℕ × O.State)
      → opened k (after_alloc O c r).1 ≡ opened k r.1
  unfolding after_alloc
  alloc-keeps k c (none, s) = refl
  alloc-keeps k c (some a, s) = init-keeps k a c (O.init_attributes a s) ∙ C.init_keeps k a s

  prepare-keeps :
      (k : ℕ) (c : Option ℕ) (s : O.State)
      → opened k (prepare_startup_information O c s).1 ≡ opened k s
  unfolding prepare_startup_information
  prepare-keeps k c s = alloc-keeps k c (O.alloc_attributes s) ∙ C.alloc_keeps k s

  -- There is no process yet.
  abbrev Unborn : WinProc O → Type 0
  Unborn p = (k : ℕ) → at k p.process + at k p.thread ≡ 0

  create_process-Owns :
      (p : WinProc O) (r : Option (ℕ × ℕ) × O.State)
      → Unborn p
      → ((k : ℕ) → opened k r.1 ≡ both k r.0 + held C k p)
      → Owns C (after_create_process p r).1
  unfolding after_create_process
  create_process-Owns p (none, s) free h k = let a = h k in omega arith
  create_process-Owns p (some (x, t), s) free h k = let a = h k in let b = free k in omega arith

  attributes-Owns :
      (task : Task) (p : WinProc O) (r : Option ℕ × O.State)
      → Unborn p
      → ((k : ℕ) → opened k r.1 ≡ held C k p)
      → Owns C (with_attributes task p r).1
  unfolding with_attributes
  attributes-Owns task p (none, s) free h = h
  attributes-Owns task p (some a, s) free h =
      create_process-Owns p (O.create_process (command_line task) task.work_dir a s) free (λ k.
        let b = h k in
        let c = C.process_opens k (command_line task) task.work_dir a s in omega arith)

  child-Owns :
      (task : Task) (p : WinProc O) → Unborn p → Owns C p → Owns C (create_child_process task p).1
  unfolding create_child_process
  child-Owns task p free owns = elim (Bool-cases (is_empty task.exec_name)) [
    | inl e ↦ rw e owns
    | inr e ↦ rw e (
        attributes-Owns task p (prepare_startup_information O p.console p.os) free
          (λ k. prepare-keeps k p.console p.os ∙ owns k))
  ]

  after_child-Owns : (r : Bool × WinProc O) → Owns C r.1 → Owns C (after_child r).1
  unfolding after_child
  after_child-Owns (true, p) owns = reset_handle-Owns C p owns
  after_child-Owns (false, p) owns = λ k.
      let a =
        close_one C p.stdout_write
          (λ k.
            at k p.stdout_read
            + (at k p.stdin_write
                + (at k p.stdin_read + (at k p.process + (at k p.thread + at k p.console)))))
          p.os (λ k. let b = owns k in omega arith) k in
      omega arith

  console-Owns :
      (task : Task) (p : WinProc O) (r : Option ℕ × O.State)
      → Unborn p
      → ((k : ℕ) → at k p.console ≡ 0)
      → ((k : ℕ) → opened k r.1 ≡ at k r.0 + held C k p)
      → Owns C (after_console task p r).1
  unfolding after_console
  console-Owns task p (none, s) free none_yet h =
      reset_handle-Owns C (record p { os = s }) (λ k. let a = h k in omega arith)
  console-Owns task p (some c, s) free none_yet h =
      let q : WinProc O = record p { console = some c; os = s } in
      after_child-Owns (create_child_process task q)
        (child-Owns task q free (λ k. let a = h k in let b = none_yet k in omega arith))

  stdin-Owns :
      (task : Task) (p : WinProc O) (r : Option (ℕ × ℕ) × O.State)
      → Unborn p
      → ((k : ℕ) → at k p.console ≡ 0)
      → ((k : ℕ) → at k p.stdin_write + at k p.stdin_read ≡ 0)
      → ((k : ℕ) → opened k r.1 ≡ both k r.0 + held C k p)
      → Owns C (after_stdin task p r).1
  unfolding after_stdin
  stdin-Owns task p (none, s) free none_yet closed h = λ k. let a = h k in omega arith
  stdin-Owns task p (some (x, w), s) free none_yet closed h =
      console-Owns task (record p { stdin_read = some x; stdin_write = some w; os = s })
        (O.create_console (some x) p.stdout_write s) free none_yet
        (λ k.
          let a = h k in
          let b = closed k in let c = C.console_opens k (some x) p.stdout_write s in omega arith)

  -- The pipes of a process that holds nothing.
  stdout-Owns :
      (task : Task) (p : WinProc O) (r : Option (ℕ × ℕ) × O.State)
      → ((k : ℕ) → held C k p ≡ 0)
      → ((k : ℕ) → opened k r.1 ≡ both k r.0 + held C k p)
      → Owns C (after_stdout task p r).1
  unfolding after_stdout
  stdout-Owns task p (none, s) free h = λ k. let a = h k in omega arith
  stdout-Owns task p (some (x, w), s) free h =
      stdin-Owns task (record p { stdout_read = some x; stdout_write = some w; os = s })
        (O.create_pipe s) (λ k. let a = free k in omega arith) (λ k. let a = free k in omega arith)
        (λ k. let a = free k in omega arith)
        (λ k. let a = h k in let b = free k in let c = C.pipe_opens k s in omega arith)

  start_idle-Owns : (task : Task) (r : Bool × WinProc O) → Owns C r.1 → Owns C (start_idle task r).1
  unfolding start_idle reset_handle
  start_idle-Owns task (true, p) owns = owns
  start_idle-Owns task (false, p) owns = elim (Bool-cases (O.is_admin p.os)) [
    | inl e ↦ rw e owns
    | inr e ↦ rw e (
        stdout-Owns task (reset_handle p) (O.create_pipe (reset_handle p).os) (λ k. refl)
          (λ k.
            let a = C.pipe_opens k (reset_handle p).os in
            let b = reset_handle-none C p owns k in omega arith))
  ]

  exit_code-Owns :
      (p : WinProc O) (r : Option ℕ × O.State)
      → ((k : ℕ) → opened k r.1 ≡ held C k p)
      → Owns C (after_exit_code p r).1
  unfolding after_exit_code
  exit_code-Owns p (none, s) h = h
  exit_code-Owns p (some code, s) h = elim (Bool-cases (code == still_active)) [
    | inl e ↦ rw e h
    | inr e ↦ rw e h
  ]

  look_at-Owns : (p : WinProc O) (o : Option ℕ) → Owns C p → Owns C (look_at p o).1
  unfolding look_at
  look_at-Owns p none owns = owns
  look_at-Owns p (some h) owns =
      exit_code-Owns p (O.get_exit_code h p.os) (λ k. C.look_keeps k h p.os ∙ owns k)

  is_running-Owns : (p : WinProc O) → Owns C p → Owns C (is_running p).1
  unfolding is_running
  is_running-Owns p owns = look_at-Owns p p.process owns

  start-Owns : (task : Task) (p : WinProc O) → Owns C p → Owns C (start task p).1
  unfolding start
  start-Owns task p owns = start_idle-Owns task (is_running p) (is_running-Owns p owns)

  code-Owns : (r : Bool × WinProc O) → Owns C r.1 → Owns C (exit_code_of r).1
  unfolding exit_code_of
  code-Owns (true, p) owns = owns
  code-Owns (false, p) owns = owns

  stop-Owns : (p : WinProc O) → ((k : ℕ) → opened k (stop p).os ≡ 0) → Owns C (stop p)
  unfolding stop reset_handle
  stop-Owns p h = h

  -- stop closes whatever is held.
  stop-none : (p : WinProc O) → Owns C p → (k : ℕ) → opened k (stop p).os ≡ 0
  unfolding stop
  stop-none p owns =
      reset_handle-none C (record p { console = none; os = close_console_if_open O p.console p.os })
        (λ k.
          let a =
            close_console C p.console (λ k. held C k (record p { console = none })) p.os
              (λ k. let b = owns k in omega arith) k in
          omega arith)

  call-Owns : (c : WinCall) (p : WinProc O) → Owns C p → Owns C (call c p)
  unfolding call exit_code read_current_output
  call-Owns (starts task) p owns = start-Owns task p owns
  call-Owns stops p owns = let a = stop-none p owns in stop-Owns p a
  call-Owns looks p owns = is_running-Owns p owns
  call-Owns reads p owns = owns
  call-Owns asks p owns = code-Owns (is_running p) (is_running-Owns p owns)

  calls-Owns : (cs : List WinCall) (p : WinProc O) → Owns C p → Owns C (call_all cs p)
  unfolding call_all
  calls-Owns [] p owns = owns
  calls-Owns (c ∷ cs) p owns = calls-Owns cs (call c p) (call-Owns c p owns)

  -- No handle is lost and none is closed twice: whatever calls are made of a process that holds exactly
  -- the handles that are open, in any order and with every failure of the API in between, it holds
  -- exactly those afterwards, and a stop closes them all. The calls are those behind init.
  pub stop-call_all :
      (cs : List WinCall) (p : WinProc O)
      → Owns C p
      → Owns C (call_all cs p) × ((k : ℕ) → opened k (stop (call_all cs p)).os ≡ 0)
  stop-call_all cs p owns =
      let after = calls-Owns cs p owns in (after, stop-none (call_all cs p) after)
