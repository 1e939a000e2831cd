-- ===== src/WinProc.antt =====
-- model/proc/winproc.hpp and winproc.cpp: a process of a task on Windows, behind a pseudo console. The
-- Windows API is a parameter; the thread that reads the pipe is the function read_pipe_loop, over what
-- its calls give it.
pub mod Handles
pub mod Owns
pub mod Stopped
pub mod Examples
use simple_task_queue.Common.{
  ℕ, ◌==◌, Bool, true, false, Option, none, some, List, [], ◌∷◌, ◌++◌, Str, ℤ, pos, to_int32,
  if◌then◌else◌, is_empty,
}
use simple_task_queue.Task.{Task}
use simple_task_queue.Process.{Process}
use simple_task_queue.LinuxProc.{push_output, read_outputs}

-- A Boolean result says that the call failed, and so does `none`. A process comes with two handles, of
-- itself and of its thread, and a pipe with those to read and to write.
pub record WinOs : Type 1 where
  pub State : Type 0
  pub is_admin : State → Bool
  pub create_pipe : State → Option (ℕ × ℕ) × State
  pub create_console : Option ℕ → Option ℕ → State → Option ℕ × State
  pub alloc_attributes : State → Option ℕ × State
  pub init_attributes : ℕ → State → Bool × State
  pub set_console : ℕ → Option ℕ → State → Bool × State
  pub heap_free : ℕ → State → State
  pub create_process : Str → Str → ℕ → State → Option (ℕ × ℕ) × State
  pub get_exit_code : ℕ → State → Option ℕ × State
  pub close_handle : ℕ → State → State
  pub close_console : ℕ → State → State

pub record WinProc (O : WinOs) : Type 0 where
  pub stdout_read : Option ℕ
  pub stdout_write : Option ℕ
  pub stdin_read : Option ℕ
  pub stdin_write : Option ℕ
  pub process : Option ℕ
  pub thread : Option ℕ
  pub console : Option ℕ
  pub exit_code : ℤ
  pub outputs : List Str
  pub os : O.State

abbrev pub still_active : ℕ
still_active = 259

unfoldable append_args : List Str → Str → Str
append_args [] line = line
append_args (arg ∷ args) line = append_args args ((line ++ arg) ++ 32 ∷ [])

unfoldable with_args : List Str → Str → Str
unfolding append_args
with_args [] line = line
with_args (arg ∷ args) line = append_args (arg ∷ args) (line ++ 32 ∷ [])

unfoldable pub command_line : Task → Str
unfolding with_args
command_line task = with_args task.args task.exec_name

-- What ReadFile gives the thread; `none` is a failure or no byte, which ends the loop.
unfoldable read_pipe_loop : ℕ → List (Option Str) → List Str → List Str
unfolding push_output
read_pipe_loop max [] outputs = outputs
read_pipe_loop max (none ∷ reads) outputs = outputs
read_pipe_loop max (some buf ∷ reads) outputs =
    read_pipe_loop max reads (push_output max buf outputs)

module _ (O : WinOs) where
  abbrev pub close_if_open : Option ℕ → O.State → O.State
  close_if_open none s = s
  close_if_open (some h) s = O.close_handle h s

  abbrev pub close_console_if_open : Option ℕ → O.State → O.State
  close_console_if_open none s = s
  close_console_if_open (some c) s = O.close_console c s

  unfoldable pub after_set_console : ℕ → Bool × O.State → Option ℕ × O.State
  after_set_console a (true, s) = (none, O.heap_free a s)
  after_set_console a (false, s) = (some a, s)

  unfoldable pub after_init_attributes : Option ℕ → ℕ → Bool × O.State → Option ℕ × O.State
  unfolding after_set_console
  after_init_attributes console a (true, s) = (none, O.heap_free a s)
  after_init_attributes console a (false, s) = after_set_console a (O.set_console a console s)

  unfoldable pub after_alloc : Option ℕ → Option ℕ × O.State → Option ℕ × O.State
  unfolding after_init_attributes
  after_alloc console (none, s) = (none, s)
  after_alloc console (some a, s) = after_init_attributes console a (O.init_attributes a s)

  -- The list of attributes, with the pseudo console in it.
  unfoldable pub prepare_startup_information : Option ℕ → O.State → Option ℕ × O.State
  unfolding after_alloc
  prepare_startup_information console s = after_alloc console (O.alloc_attributes s)

module _ {O : WinOs} where
  -- The handles are closed from the inside out, in the order of the source.
  unfoldable pub reset_handle : WinProc O → WinProc O
  reset_handle p = record p {
    stdout_read = none;
    stdout_write = none;
    stdin_read = none;
    stdin_write = none;
    process = none;
    thread = none;
    console = none;
    os = close_console_if_open O p.console (
        close_if_open O p.thread (
          close_if_open O p.process (
            close_if_open O p.stdin_read (
              close_if_open O p.stdin_write
                (close_if_open O p.stdout_write (close_if_open O p.stdout_read p.os))))));
  }

  unfoldable pub init_process : WinProc O → WinProc O
  unfolding reset_handle
  init_process p = record (reset_handle (record p { process = none; thread = none })) {
    outputs = [];
  }

  unfoldable pub stop : WinProc O → WinProc O
  unfolding reset_handle
  stop p = reset_handle (record p { console = none; os = close_console_if_open O p.console p.os })

  -- The thread has ended where it is joined.
  unfoldable pub after_exit_code : WinProc O → Option ℕ × O.State → Bool × WinProc O
  after_exit_code p (none, s) = (true, record p { os = s })
  after_exit_code p (some code, s) =
      if code == still_active
      then (true, record p { os = s })
      else (false, record p { exit_code = to_int32 (pos code); os = s })

  unfoldable pub look_at : WinProc O → Option ℕ → Bool × WinProc O
  unfolding after_exit_code
  look_at p none = (false, p)
  look_at p (some h) = after_exit_code p (O.get_exit_code h p.os)

  unfoldable pub is_running : WinProc O → Bool × WinProc O
  unfolding look_at
  is_running p = look_at p p.process

  unfoldable pub exit_code_of : Bool × WinProc O → Option ℤ × WinProc O
  exit_code_of (true, p) = (none, p)
  exit_code_of (false, p) = (some p.exit_code, p)

  unfoldable pub exit_code : WinProc O → Option ℤ × WinProc O
  unfolding exit_code_of is_running
  exit_code p = exit_code_of (is_running p)

  -- The loop is that of the process on Linux.
  unfoldable pub read_current_output : WinProc O → List Str × WinProc O
  unfolding read_outputs
  read_current_output p =
      let (out, outputs) = read_outputs p.outputs in (out, record p { outputs = outputs })

  unfoldable pub after_create_process : WinProc O → Option (ℕ × ℕ) × O.State → Bool × WinProc O
  after_create_process p (none, s) = (true, record p { os = s })
  after_create_process p (some (h, t), s) =
      (false, record p { process = some h; thread = some t; os = s })

  unfoldable pub with_attributes : Task → WinProc O → Option ℕ × O.State → Bool × WinProc O
  unfolding after_create_process command_line
  with_attributes task p (none, s) = (true, record p { os = s })
  with_attributes task p (some a, s) =
      after_create_process p (O.create_process (command_line task) task.work_dir a s)

  unfoldable pub create_child_process : Task → WinProc O → Bool × WinProc O
  unfolding with_attributes prepare_startup_information
  create_child_process task p =
      if is_empty task.exec_name
      then (true, p)
      else with_attributes task p (prepare_startup_information O p.console p.os)

  unfoldable pub after_child : Bool × WinProc O → Bool × WinProc O
  unfolding reset_handle
  after_child (true, p) = (true, reset_handle p)
  after_child (false, p) = (
    false,
    record p {
      stdout_write = none;
      exit_code = pos still_active;
      os = close_if_open O p.stdout_write p.os;
    },
  )

  unfoldable pub after_console : Task → WinProc O → Option ℕ × O.State → Bool × WinProc O
  unfolding after_child create_child_process reset_handle
  after_console task p (none, s) = (true, reset_handle (record p { os = s }))
  after_console task p (some c, s) =
      after_child (create_child_process task (record p { console = some c; os = s }))

  unfoldable pub after_stdin : Task → WinProc O → Option (ℕ × ℕ) × O.State → Bool × WinProc O
  unfolding after_console
  after_stdin task p (none, s) = (true, record p { os = s })
  after_stdin task p (some (r, w), s) =
      after_console task (record p { stdin_read = some r; stdin_write = some w; os = s })
        (O.create_console (some r) p.stdout_write s)

  unfoldable pub after_stdout : Task → WinProc O → Option (ℕ × ℕ) × O.State → Bool × WinProc O
  unfolding after_stdin
  after_stdout task p (none, s) = (true, record p { os = s })
  after_stdout task p (some (r, w), s) =
      after_stdin task (record p { stdout_read = some r; stdout_write = some w; os = s })
        (O.create_pipe s)

  unfoldable pub start_idle : Task → Bool × WinProc O → Bool × WinProc O
  unfolding after_stdout reset_handle
  start_idle task (true, p) = (true, p)
  start_idle task (false, p) =
      if O.is_admin p.os
      then (true, p)
      else after_stdout task (reset_handle p) (O.create_pipe (reset_handle p).os)

  unfoldable pub start : Task → WinProc O → Bool × WinProc O
  unfolding start_idle is_running
  start task p = start_idle task (is_running p)

-- The class WinProc behind the interface IProc.
abbrev win_process : WinOs → Process
win_process O = record {
  State = WinProc O;
  start = start;
  stop = stop;
  is_running = is_running;
  read_current_output = read_current_output;
  exit_code = exit_code;
}
