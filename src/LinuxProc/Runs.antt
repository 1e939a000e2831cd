-- ===== src/LinuxProc/Runs.antt =====
-- model/proc/linuxproc.cpp: start, isRunning and exitCode behind IProc, and what the system calls
-- should do.
use simple_task_queue.Common.{
  ℕ, zero, suc, ◌≡◌, refl, sym, ap, ◌∙◌, subst, ◌⊎◌, inl, inr, Bool, true, false, some, ℤ, int_eq,
  if◌then◌else◌, Bool-cases, pos,
}
use simple_task_queue.Task.{Task}
use simple_task_queue.Queue.Rounds.{Stops, stopped, still_runs, Cooperates}
use simple_task_queue.LinuxProc.{
  Os, Child, wait_failed, not_yet, changed, LinuxProc, linux_process, start, is_running, exit_code,
  after_wait, epoll_fin, close_file, after_epoll_add, after_epoll_create, after_set_flags,
  after_get_flags, after_fork, start_idle, exit_code_of, child_of, minus_one, start_epoll_failed,
}

-- `Quiet` says that there is no child, and `Runs k pid x` that the child `pid` ends with the status `x`
-- within `k` looks at it.
pub record Reliable (O : Os) (n : ℕ) (status : Child → ℤ) : Type 1 where
  pub Quiet : O.State → Type 0
  pub Runs : ℕ → ℤ → ℤ → O.State → Type 0
  pub not_admin : (s : O.State) → Quiet s → O.is_admin s ≡ false
  pub wait_quiet :
      (pid : ℤ) (s : O.State)
      → Quiet s
      → (s' : O.State) × (O.waitpid pid s ≡ (wait_failed, s')) × Quiet s'
  pub close_quiet : (fd : ℤ) (s : O.State) → Quiet s → Quiet (O.close fd s)
  pub forked :
      (c : Child) (s : O.State)
      → Quiet s
      → (pid : ℤ) × (fd : ℤ) × (s' : O.State) × (O.forkpty c s ≡ (some (pid, fd), s'))
        × Runs n pid (status c) s'
  pub got_flags :
      (pid x fd : ℤ) (s : O.State)
      → Runs n pid x s
      → (flags : ℤ) × (s' : O.State) × (O.get_flags fd s ≡ (some flags, s')) × Runs n pid x s'
  pub nonblocking :
      (pid x fd flags : ℤ) (s : O.State)
      → Runs n pid x s
      → (s' : O.State) × (O.set_nonblocking fd flags s ≡ (false, s')) × Runs n pid x s'
  pub epoll_created :
      (pid x : ℤ) (s : O.State)
      → Runs n pid x s
      → (fd : ℤ) × (s' : O.State) × (O.epoll_create s ≡ (fd, s'))
        × (int_eq fd minus_one ≡ false)
        × Runs n pid x s'
  pub epoll_added :
      (pid x efd fd : ℤ) (s : O.State)
      → Runs n pid x s
      → (s' : O.State) × (O.epoll_add efd fd s ≡ (false, s')) × Runs n pid x s'
  pub waited :
      (k : ℕ) (pid x : ℤ) (s : O.State)
      → Runs k pid x s
      → (s' : O.State) × (j : ℕ) × (k ≡ suc j)
        × (((O.waitpid pid s ≡ (not_yet, s')) × Runs j pid x s')
            ⊎ ((O.waitpid pid s ≡ (changed true x, s')) × Quiet s'))

suc_inj : {a b : ℕ} → suc a ≡ suc b → a ≡ b
suc_inj h = cc

module _ {O : Os} {n : ℕ} {status : Child → ℤ} (R : Reliable O n status) where
  open R use {Quiet, Runs}

  -- A start that has worked.
  abbrev Started : ℤ → Bool × LinuxProc O → Type 0
  Started x r = (r.0 ≡ false) × Runs n r.1.pid x r.1.os

  epoll_add-Started :
      (p : LinuxProc O) (x efd : ℤ) (s : O.State)
      → Runs n p.pid x s
      → Started x (after_epoll_add p (O.epoll_add efd p.master_fd s))
  unfolding after_epoll_add
  epoll_add-Started p x efd s h =
      let (s', e, runs) = R.epoll_added p.pid x efd p.master_fd s h in
      subst (λ r. Started x (after_epoll_add p r)) (sym e) (refl, runs)

  epoll_create-Started :
      (p : LinuxProc O) (x : ℤ) (s : O.State)
      → Runs n p.pid x s
      → Started x (after_epoll_create p (O.epoll_create s))
  unfolding after_epoll_create
  epoll_create-Started p x s h =
      let (fd, s', e, valid, runs) = R.epoll_created p.pid x s h in
      subst (λ r. Started x (after_epoll_create p r)) (sym e)
        (subst
          (λ b. Started x (
            if b
            then start_epoll_failed (record p { epoll_fd = fd; os = s' })
            else after_epoll_add (record p { epoll_fd = fd }) (O.epoll_add fd p.master_fd s')))
          (sym valid) (epoll_add-Started (record p { epoll_fd = fd }) x fd s' runs))

  flags-Started :
      (p : LinuxProc O) (x : ℤ) (s : O.State)
      → Runs n p.pid x s
      → Started x (after_get_flags p (O.get_flags p.master_fd s))
  unfolding after_get_flags after_set_flags
  flags-Started p x s h =
      let (flags, s', e, runs) = R.got_flags p.pid x p.master_fd s h in
      let (s2, e2, runs2) = R.nonblocking p.pid x p.master_fd flags s' runs in
      subst (λ r. Started x (after_get_flags p r)) (sym e)
        (subst (λ r. Started x (after_set_flags p r)) (sym e2) (epoll_create-Started p x s2 runs2))

  start_idle-Started :
      (task : Task) (p : LinuxProc O)
      → Quiet p.os
      → Started (status (child_of task)) (start_idle task (false, p))
  unfolding start_idle after_fork
  start_idle-Started task p quiet =
      let x = status (child_of task) in
      let q : LinuxProc O = record p { master_fd = minus_one; exit_code = pos 0 } in
      let (pid, fd, s', e, runs) = R.forked (child_of task) p.os quiet in
      subst
        (λ b. Started x (if b then (true, p) else after_fork q (O.forkpty (child_of task) p.os)))
        (sym (R.not_admin p.os quiet))
        (subst (λ r. Started x (after_fork q r)) (sym e)
          (flags-Started (record q { pid = pid; master_fd = fd }) x s' runs))

  close_file-Quiet : (fd : ℤ) (s : O.State) → Quiet s → Quiet (close_file O fd s)
  unfolding close_file
  close_file-Quiet fd s quiet = elim (Bool-cases (int_eq fd minus_one)) [
    | inl h ↦ rw h quiet
    | inr h ↦ rw h (R.close_quiet fd s quiet)
  ]

  epoll_fin-Quiet : (p : LinuxProc O) → Quiet p.os → Quiet (epoll_fin p).os
  unfolding epoll_fin
  epoll_fin-Quiet p quiet =
      close_file-Quiet p.master_fd (close_file O p.epoll_fd p.os)
        (close_file-Quiet p.epoll_fd p.os quiet)

  -- Without a child the process does not run, and the code is the one that was kept.
  is_running_quiet :
      (p : LinuxProc O)
      → Quiet p.os
      → (p' : LinuxProc O) × (is_running p ≡ (false, p'))
        × Quiet p'.os
        × (p'.exit_code ≡ p.exit_code)
  unfolding is_running after_wait epoll_fin
  is_running_quiet p quiet =
      let (s', e, quiet') = R.wait_quiet p.pid p.os quiet in
      (
        epoll_fin (record p { os = s' }),
        ap (after_wait p) e,
        epoll_fin-Quiet (record p { os = s' }) quiet',
        refl,
      )

  start-Started :
      (task : Task) (p : LinuxProc O) → Quiet p.os → Started (status (child_of task)) (start task p)
  unfolding start
  start-Started task p quiet =
      let (p', e, quiet', same) = is_running_quiet p quiet in
      subst (λ r. Started (status (child_of task)) (start_idle task r)) (sym e)
        (start_idle-Started task p' quiet')

  -- The looks at a child that runs, up to its end.
  runs-Stops :
      (k : ℕ) (x : ℤ) (p : LinuxProc O)
      → Runs k p.pid x p.os
      → (p' : LinuxProc O) × Stops (linux_process O) k p p' × Quiet p'.os × (p'.exit_code ≡ x)
  unfolding is_running after_wait epoll_fin
  runs-Stops zero x p h = let (s', j, e, w) = R.waited zero p.pid x p.os h in absurd (cc e)
  runs-Stops (suc k) x p h =
      let (s', j, e, w) = R.waited (suc k) p.pid x p.os h in
      elim w [
        | inl (looks, more) ↦
            let (p', stops, quiet, code) =
              runs-Stops k x (record p { os = s' })
                (subst (λ i. Runs i p.pid x s') (sym (suc_inj e)) more) in
            (p', still_runs (ap (after_wait p) looks) stops, quiet, code)
        | inr (ends, quiet) ↦ (
          epoll_fin (record p { exit_code = x; os = s' }),
          stopped (ap (after_wait p) ends),
          epoll_fin-Quiet (record p { exit_code = x; os = s' }) quiet,
          refl,
        )
      ]

  exit_code_quiet :
      (p : LinuxProc O)
      → Quiet p.os
      → (p' : LinuxProc O) × (exit_code p ≡ (some p.exit_code, p')) × Quiet p'.os
  unfolding exit_code exit_code_of
  exit_code_quiet p quiet =
      let (p', e, quiet', same) = is_running_quiet p quiet in
      (p', ap exit_code_of e ∙ ap (λ x. (some x, p')) same, quiet')

  -- If the system calls work, a Linux process without a child can start every task; the child ends
  -- within `n` looks, and exitCode gives the status of waitpid then.
  pub linux_process-Cooperates :
      Cooperates (linux_process O) n (λ p. Quiet p.os) (λ task. status (child_of task))
  linux_process-Cooperates = record {
    runs = λ task p quiet.
        let (works, runs) = start-Started task p quiet in
        let p1 = (start task p).1 in
        let (p2, stops, quiet2, code) = runs-Stops n (status (child_of task)) p1 runs in
        let (p3, exits, quiet3) = exit_code_quiet p2 quiet2 in
        (p1, p2, p3, ap (λ b. (b, p1)) works, stops, exits ∙ ap (λ x. (some x, p3)) code, quiet3);
  }
