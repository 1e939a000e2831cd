-- ===== src/LinuxProc.antt =====
-- model/proc/linuxproc.hpp and linuxproc.cpp: a process of a task on Linux. The system calls are a
-- parameter; the thread that reads the terminal is the function read_output_loop, over what its calls
-- give it.
pub mod Output
pub mod Argv
pub mod Runs
pub mod Examples
use simple_task_queue.Common.{
  ℕ, zero, suc, ◌+◌, Bool, true, false, Option, none, some, List, [], ◌∷◌, ◌++◌, Str, ℤ, pos,
  negsuc, int_eq, if◌then◌else◌, ◌==◌, length, take, drop, ltb,
}
use simple_task_queue.Task.{Task}
use simple_task_queue.Process.{Process}

-- What waitpid with WNOHANG says: -1, 0, or a status and whether the child has exited or was killed.
pub data Waited : Type 0 where
  wait_failed not_yet : Waited
  changed : Bool → ℤ → Waited

-- What the child asks for: chdir, and execve with its arguments.
pub record Child : Type 0 where
  pub work_dir : Str
  pub path : Str
  pub argv : List (Option Str)

-- A Boolean result says that the call failed. `is_admin` is Controller::Global::isAdmin.
pub record Os : Type 1 where
  pub State : Type 0
  pub waitpid : ℤ → State → Waited × State
  pub kill : ℤ → State → Bool × State
  pub is_admin : State → Bool
  pub forkpty : Child → State → Option (ℤ × ℤ) × State
  pub get_flags : ℤ → State → Option ℤ × State
  pub set_nonblocking : ℤ → ℤ → State → Bool × State
  pub epoll_create : State → ℤ × State
  pub epoll_add : ℤ → ℤ → State → Bool × State
  pub close : ℤ → State → State

-- STQ_MAX_READ_QUEUE_SIZE, which the build sets, is an argument.
unfoldable pub push_output : ℕ → Str → List Str → List Str
push_output max buf outputs =
    (if length outputs == max then drop 1 outputs else outputs) ++ buf ∷ []

-- The loop of readCurrentOutput; `rounds` is how often it may still go round.
unfoldable pub read_loop : ℕ → ℕ → List Str → List Str → List Str × List Str
read_loop zero index out outputs = (out, outputs)
read_loop (suc rounds) index out [] = (out, [])
read_loop (suc rounds) index out (buf ∷ outputs) =
    if ltb index (length (buf ∷ outputs))
    then read_loop rounds (index + 1) (out ++ buf ∷ []) outputs
    else (out, buf ∷ outputs)

unfoldable pub read_outputs : List Str → List Str × List Str
unfolding read_loop
read_outputs outputs = read_loop (length outputs) 0 [] outputs

-- What read gives the thread: a piece, nothing, one of EINTR, EAGAIN and EIO, or another error.
pub data ReadResult : Type 0 where
  piece : Str → ReadResult
  at_end try_again read_failed : ReadResult

-- The reads of one event, up to the first that ends the inner loop. The thread goes on if that gave
-- a piece.
unfoldable pub read_event : ℕ → List ReadResult → List Str → Bool × List Str
unfolding push_output
read_event max [] outputs = (false, outputs)
read_event max (piece buf ∷ reads) outputs = (true, push_output max buf outputs)
read_event max (at_end ∷ reads) outputs = (false, outputs)
read_event max (try_again ∷ reads) outputs = read_event max reads outputs
read_event max (read_failed ∷ reads) outputs = (false, outputs)

-- The events on the terminal, in their order, each with its reads.
unfoldable pub read_output_loop : ℕ → List (List ReadResult) → List Str → List Str
unfolding read_event
read_output_loop max [] outputs = outputs
read_output_loop max (reads ∷ events) outputs =
    let (goes_on, outputs') = read_event max reads outputs in
    let rest = read_output_loop max events outputs' in if goes_on then rest else outputs'

-- argv[index] = arg, in an array.
unfoldable pub set_arg : ℕ → Option Str → List (Option Str) → List (Option Str)
set_arg index arg [] = []
set_arg zero arg (x ∷ argv) = arg ∷ argv
set_arg (suc index) arg (x ∷ argv) = x ∷ set_arg index arg argv

-- The loop over task.args, which fills argv from `index` on.
unfoldable pub fill_args : ℕ → List Str → List (Option Str) → List (Option Str)
unfolding set_arg
fill_args index [] argv = argv
fill_args index (arg ∷ args) argv = fill_args (index + 1) args (set_arg index (some arg) argv)

-- new char *[size]()
abbrev new_argv : ℕ → List (Option Str)
new_argv zero = []
new_argv (suc size) = none ∷ new_argv size

-- There is always memory. Without arguments the size is 2, as it is by the other branch.
unfoldable pub build_child_argv : Task → List (Option Str)
unfolding fill_args set_arg
build_child_argv task =
    set_arg (length task.args + 1) none
      (fill_args 1 task.args (set_arg 0 (some task.exec_name) (new_argv (length task.args + 2))))

abbrev pub child_of : Task → Child
child_of task = record {
  work_dir = task.work_dir;
  path = task.exec_name;
  argv = build_child_argv task;
}

pub record LinuxProc (O : Os) : Type 0 where
  pub pid : ℤ
  pub master_fd : ℤ
  pub exit_code : ℤ
  pub epoll_fd : ℤ
  pub outputs : List Str
  pub os : O.State

abbrev pub minus_one : ℤ
minus_one = negsuc 0

unfoldable pub close_file : (O : Os) → ℤ → O.State → O.State
close_file O fd s = if int_eq fd minus_one then s else O.close fd s

module _ {O : Os} where
  unfoldable pub epoll_fin : LinuxProc O → LinuxProc O
  unfolding close_file
  epoll_fin p = record p {
    epoll_fd = minus_one;
    master_fd = minus_one;
    os = close_file O p.master_fd (close_file O p.epoll_fd p.os);
  }

  unfoldable pub after_wait : LinuxProc O → Waited × O.State → Bool × LinuxProc O
  unfolding epoll_fin
  after_wait p (wait_failed, s) = (false, epoll_fin (record p { os = s }))
  after_wait p (not_yet, s) = (true, record p { os = s })
  after_wait p (changed ended status, s) =
      (false, epoll_fin (record p { exit_code = (if ended then status else p.exit_code); os = s }))

  unfoldable pub is_running : LinuxProc O → Bool × LinuxProc O
  unfolding after_wait
  is_running p = after_wait p (O.waitpid p.pid p.os)

  unfoldable pub exit_code_of : Bool × LinuxProc O → Option ℤ × LinuxProc O
  exit_code_of (true, p) = (none, p)
  exit_code_of (false, p) = (some p.exit_code, p)

  unfoldable pub exit_code : LinuxProc O → Option ℤ × LinuxProc O
  unfolding exit_code_of is_running
  exit_code p = exit_code_of (is_running p)

  unfoldable pub read_current_output : LinuxProc O → List Str × LinuxProc O
  unfolding read_outputs
  read_current_output p =
      let (out, outputs) = read_outputs p.outputs in (out, record p { outputs = outputs })

  -- kill(m_pid, SIGKILL), and the wait of two seconds if that succeeds.
  unfoldable pub stop : LinuxProc O → LinuxProc O
  stop p = record p { os = (O.kill p.pid p.os).1 }

  unfoldable pub init_process : LinuxProc O → LinuxProc O
  init_process p = record p { exit_code = pos 0; outputs = [] }

  -- A start that fails behind the fork: the child is killed.
  unfoldable start_failed : LinuxProc O → Bool × LinuxProc O
  unfolding stop
  start_failed p = (true, stop p)

  unfoldable pub start_epoll_failed : LinuxProc O → Bool × LinuxProc O
  unfolding stop epoll_fin
  start_epoll_failed p = (true, epoll_fin (stop p))

  unfoldable pub after_epoll_add : LinuxProc O → Bool × O.State → Bool × LinuxProc O
  unfolding start_epoll_failed
  after_epoll_add p (true, s) = start_epoll_failed (record p { os = s })
  after_epoll_add p (false, s) = (false, record p { os = s })

  unfoldable pub after_epoll_create : LinuxProc O → ℤ × O.State → Bool × LinuxProc O
  unfolding after_epoll_add start_epoll_failed
  after_epoll_create p (fd, s) =
      if int_eq fd minus_one
      then start_epoll_failed (record p { epoll_fd = fd; os = s })
      else after_epoll_add (record p { epoll_fd = fd }) (O.epoll_add fd p.master_fd s)

  unfoldable pub after_set_flags : LinuxProc O → Bool × O.State → Bool × LinuxProc O
  unfolding after_epoll_create start_failed
  after_set_flags p (true, s) = start_failed (record p { os = s })
  after_set_flags p (false, s) = after_epoll_create p (O.epoll_create s)

  unfoldable pub after_get_flags : LinuxProc O → Option ℤ × O.State → Bool × LinuxProc O
  unfolding after_set_flags start_failed
  after_get_flags p (none, s) = start_failed (record p { os = s })
  after_get_flags p (some flags, s) = after_set_flags p (O.set_nonblocking p.master_fd flags s)

  -- m_pid is -1 where the fork fails.
  unfoldable pub after_fork : LinuxProc O → Option (ℤ × ℤ) × O.State → Bool × LinuxProc O
  unfolding after_get_flags
  after_fork p (none, s) = (true, record p { pid = minus_one; os = s })
  after_fork p (some (pid, fd), s) =
      after_get_flags (record p { pid = pid; master_fd = fd }) (O.get_flags fd s)

  unfoldable pub start_idle : Task → Bool × LinuxProc O → Bool × LinuxProc O
  unfolding after_fork
  start_idle task (true, p) = (true, p)
  start_idle task (false, p) =
      if O.is_admin p.os
      then (true, p)
      else after_fork (record p { master_fd = minus_one; exit_code = pos 0 })
          (O.forkpty (child_of task) p.os)

  unfoldable pub start : Task → LinuxProc O → Bool × LinuxProc O
  unfolding start_idle is_running
  start task p = start_idle task (is_running p)

-- The class LinuxProc behind the interface IProc.
abbrev pub linux_process : Os → Process
linux_process O = record {
  State = LinuxProc O;
  start = start;
  stop = stop;
  is_running = is_running;
  read_current_output = read_current_output;
  exit_code = exit_code;
}
