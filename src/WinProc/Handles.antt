-- ===== src/WinProc/Handles.antt =====
-- model/proc/winproc.cpp: the handles that a process of a task holds, and those that are open.
use simple_task_queue.Common.{ℕ, ◌+◌, ◌≤◌, ◌≡◌, ◌==◌, if◌then◌else◌, Option, none, some, Str, arith}
use simple_task_queue.WinProc.{WinOs, WinProc, close_if_open, close_console_if_open, reset_handle}

-- Whether a handle is `k`, as 1 or 0.
unfoldable pub one : ℕ → ℕ → ℕ
one k h = if k == h then 1 else 0

one_self : (k : ℕ) → one k k ≡ 1
unfolding one
one_self k = ground arith

abbrev pub at : ℕ → Option ℕ → ℕ
at k none = 0
at k (some h) = one k h

abbrev pub both : ℕ → Option (ℕ × ℕ) → ℕ
both k none = 0
both k (some (a, b)) = one k a + one k b

-- How often a handle is open. The calls that give handles open those and no others, closing an open
-- handle takes it away, and the other calls change nothing.
pub record Counts (O : WinOs) : Type 1 where
  pub opened : ℕ → O.State → ℕ
  pub pipe_opens :
      (k : ℕ) (s : O.State) → opened k (O.create_pipe s).1 ≡ both k (O.create_pipe s).0 + opened k s
  pub console_opens :
      (k : ℕ) (r w : Option ℕ) (s : O.State)
      → opened k (O.create_console r w s).1 ≡ at k (O.create_console r w s).0 + opened k s
  pub process_opens :
      (k : ℕ) (line dir : Str) (a : ℕ) (s : O.State)
      → opened k (O.create_process line dir a s).1
        ≡ both k (O.create_process line dir a s).0 + opened k s
  pub handle_closes :
      (k h : ℕ) (s : O.State)
      → 1 ≤ opened h s
      → one k h + opened k (O.close_handle h s) ≡ opened k s
  pub console_closes :
      (k c : ℕ) (s : O.State)
      → 1 ≤ opened c s
      → one k c + opened k (O.close_console c s) ≡ opened k s
  pub alloc_keeps : (k : ℕ) (s : O.State) → opened k (O.alloc_attributes s).1 ≡ opened k s
  pub init_keeps : (k a : ℕ) (s : O.State) → opened k (O.init_attributes a s).1 ≡ opened k s
  pub set_keeps :
      (k a : ℕ) (c : Option ℕ) (s : O.State) → opened k (O.set_console a c s).1 ≡ opened k s
  pub free_keeps : (k a : ℕ) (s : O.State) → opened k (O.heap_free a s) ≡ opened k s
  pub look_keeps : (k h : ℕ) (s : O.State) → opened k (O.get_exit_code h s).1 ≡ opened k s

module _ {O : WinOs} (C : Counts O) where
  open C use {opened}

  abbrev pub held : ℕ → WinProc O → ℕ
  held k p =
      at k p.stdout_read
      + (at k p.stdout_write
          + (at k p.stdin_write
              + (at k p.stdin_read + (at k p.process + (at k p.thread + at k p.console)))))

  -- The process holds what is open, and nothing that is not.
  abbrev pub Owns : WinProc O → Type 0
  Owns p = (k : ℕ) → opened k p.os ≡ held k p

  pub close_one :
      (o : Option ℕ) (rest : ℕ → ℕ) (s : O.State)
      → ((k : ℕ) → opened k s ≡ at k o + rest k)
      → (k : ℕ) → opened k (close_if_open O o s) ≡ rest k
  close_one none rest s h k = let a = h k in omega arith
  close_one (some x) rest s h k =
      let a = h k in
      let b = h x in
      let c = one_self x in let d = C.handle_closes k x s (omega arith) in omega arith

  pub close_console :
      (o : Option ℕ) (rest : ℕ → ℕ) (s : O.State)
      → ((k : ℕ) → opened k s ≡ at k o + rest k)
      → (k : ℕ) → opened k (close_console_if_open O o s) ≡ rest k
  close_console none rest s h k = let a = h k in omega arith
  close_console (some x) rest s h k =
      let a = h k in
      let b = h x in
      let c = one_self x in let d = C.console_closes k x s (omega arith) in omega arith

  close_last :
      (o : Option ℕ) (s : O.State)
      → ((k : ℕ) → opened k s ≡ at k o)
      → (k : ℕ) → opened k (close_console_if_open O o s) ≡ 0
  close_last o s h = close_console o (λ k. 0) s (λ k. let a = h k in omega arith)

  -- resetHandle closes whatever is held.
  pub reset_handle-none : (p : WinProc O) → Owns p → (k : ℕ) → opened k (reset_handle p).os ≡ 0
  unfolding reset_handle
  reset_handle-none p owns = close_last p.console _ (
      close_one p.thread (λ k. at k p.console) _
        (close_one p.process (λ k. at k p.thread + at k p.console) _
          (close_one p.stdin_read (λ k. at k p.process + (at k p.thread + at k p.console)) _
            (close_one p.stdin_write
              (λ k. at k p.stdin_read + (at k p.process + (at k p.thread + at k p.console))) _
              (close_one p.stdout_write
                (λ k.
                  at k p.stdin_write
                  + (at k p.stdin_read + (at k p.process + (at k p.thread + at k p.console))))
                _
                (close_one p.stdout_read
                  (λ k.
                    at k p.stdout_write
                    + (at k p.stdin_write
                        + (at k p.stdin_read
                            + (at k p.process + (at k p.thread + at k p.console)))))
                  p.os owns))))))

  pub reset_handle-Owns : (p : WinProc O) → Owns p → Owns (reset_handle p)
  unfolding reset_handle
  reset_handle-Owns p owns = reset_handle-none p owns
