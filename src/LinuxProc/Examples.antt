-- ===== src/LinuxProc/Examples.antt =====
-- System calls in memory, on which the lemmas about a Linux process are tried: each child has the
-- number 5, and has ended with the status 256, that of exit(1), at the first look.
use simple_task_queue.Common.{
  ℕ, ◌≡◌, ◌+◌, ◌/◌, ◌++◌, refl, inr, true, false, Option, none, some, List, [], ◌∷◌, Str, codes, ℤ,
  pos, length, map, arith,
}
use simple_task_queue.Task.{Task, empty_task}
use simple_task_queue.Queue.Rounds.{Cooperates}
use simple_task_queue.LinuxProc.{
  Os, Waited, wait_failed, changed, linux_process, build_child_argv, read_outputs, read_output_loop,
  ReadResult, piece, at_end, try_again,
}
use simple_task_queue.LinuxProc.Runs.{Reliable, linux_process-Cooperates}
use simple_task_queue.LinuxProc.Argv.{build_child_argv_lem}
use simple_task_queue.LinuxProc.Output.{read_outputs_lem, read_output_loop-IsEnd, IsEnd, pieces}

-- The status of the child, if there is one.
abbrev sample_wait : Option ℤ → Waited × Option ℤ
sample_wait none = (wait_failed, none)
sample_wait (some x) = (changed true x, none)

abbrev sample_os : Os
sample_os = record {
  State = Option ℤ;
  waitpid = λ pid s. sample_wait s;
  kill = λ pid s. (false, s);
  is_admin = λ s. false;
  forkpty = λ c s. (some (pos 5, pos 3), some (pos 256));
  get_flags = λ fd s. (some (pos 2), s);
  set_nonblocking = λ fd flags s. (false, s);
  epoll_create = λ s. (pos 4, s);
  epoll_add = λ efd fd s. (false, s);
  close = λ fd s. s;
}

abbrev SampleQuiet : Option ℤ → Type 0
SampleQuiet s = s ≡ none

abbrev SampleRuns : ℕ → ℤ → ℤ → Option ℤ → Type 0
SampleRuns k pid x s = (k ≡ 1) × (s ≡ some x)

abbrev sample_Reliable : Reliable sample_os 1 (λ c. pos 256)
sample_Reliable = record {
  Quiet = SampleQuiet;
  Runs = SampleRuns;
  not_admin = λ s quiet. refl;
  wait_quiet = λ pid s quiet. (none, rw quiet refl, refl);
  close_quiet = λ fd s quiet. quiet;
  forked = λ c s quiet. (pos 5, pos 3, some (pos 256), refl, (refl, refl));
  got_flags = λ pid x fd s runs. (pos 2, s, refl, runs);
  nonblocking = λ pid x fd flags s runs. (s, refl, runs);
  epoll_created = λ pid x s runs. (pos 4, s, refl, refl, runs);
  epoll_added = λ pid x efd fd s runs. (s, refl, runs);
  waited = λ k pid x s runs. (none, 0, runs.0, inr (rw runs.1 refl, refl));
}

linux_process-Cooperates_example :
    Cooperates (linux_process sample_os) 1 (λ p. SampleQuiet p.os) (λ task. pos 256)
linux_process-Cooperates_example = linux_process-Cooperates sample_Reliable

abbrev three_outputs : List Str
three_outputs = codes "a" ∷ codes "b" ∷ codes "c" ∷ []

-- One of three outputs stays behind.
left_behind : (read_outputs three_outputs).1 ≡ codes "c" ∷ []
unfolding read_outputs
left_behind = refl

read_outputs_lem_example :
    ((read_outputs three_outputs).0 ++ (read_outputs three_outputs).1 ≡ three_outputs)
    × (length (read_outputs three_outputs).0 ≡ (length three_outputs + 1) / 2)
read_outputs_lem_example = read_outputs_lem three_outputs

abbrev events : List (List ReadResult)
events = (try_again ∷ piece (codes "d") ∷ []) ∷ (at_end ∷ []) ∷ (piece (codes "e") ∷ []) ∷ []

read_output_loop-IsEnd_example :
    IsEnd 3 (three_outputs ++ pieces events) (read_output_loop 3 events three_outputs)
read_output_loop-IsEnd_example =
    read_output_loop-IsEnd 3 events three_outputs (omega arith) (omega arith)

abbrev echo : Task
echo = record empty_task { exec_name = codes "/bin/echo"; args = codes "-n" ∷ codes "x" ∷ [] }

build_child_argv_lem_example :
    build_child_argv echo
    ≡ some (codes "/bin/echo") ∷ (map some (codes "-n" ∷ codes "x" ∷ []) ++ none ∷ [])
build_child_argv_lem_example = build_child_argv_lem echo
