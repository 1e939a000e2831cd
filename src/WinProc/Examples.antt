-- ===== src/WinProc/Examples.antt =====
-- A Windows API in memory: the next handle, and the handles that are open. A process ends at once, with
-- the code 7.
use simple_task_queue.Common.{
  ℕ, ◌+◌, ◌≤◌, ◌≡◌, ◌==◌, refl, inl, inr, false, Bool-cases, if◌then◌else◌, none, some, List, [],
  ◌∷◌, codes, pos, arith,
}
use simple_task_queue.Task.{Task, empty_task}
use simple_task_queue.WinProc.{WinOs, WinProc, stop, start, is_running, exit_code}
use simple_task_queue.WinProc.Handles.{Counts, one, Owns}
use simple_task_queue.WinProc.Owns.{WinCall, starts, stops, looks, asks, call_all, stop-call_all}
use simple_task_queue.WinProc.Stopped.{exit_code-stop}

count : ℕ → List ℕ → ℕ
count k [] = 0
count k (h ∷ hs) = one k h + count k hs

remove : ℕ → List ℕ → List ℕ
remove h [] = []
remove h (x ∷ hs) = let rest = remove h hs in if h == x then hs else x ∷ rest

count-remove :
    (k h : ℕ) (hs : List ℕ) → 1 ≤ count h hs → one k h + count k (remove h hs) ≡ count k hs
unfolding count remove one
count-remove k h [] some_open = absurd (omega arith)
count-remove k h (x ∷ hs) some_open = elim (Bool-cases (h == x)) [
  | inl e ↦ rw e (ground arith)
  | inr e ↦ rw e (
      let more : 1 ≤ count h hs = ground arith in
      let rest = count-remove k h hs more in omega arith)
]

abbrev memory_os : WinOs
memory_os = record {
  State = ℕ × List ℕ;
  is_admin = λ s. false;
  create_pipe = λ s. (some (s.0, s.0 + 1), (s.0 + 2, s.0 ∷ ((s.0 + 1) ∷ s.1)));
  create_console = λ r w s. (some s.0, (s.0 + 1, s.0 ∷ s.1));
  alloc_attributes = λ s. (some 0, s);
  init_attributes = λ a s. (false, s);
  set_console = λ a c s. (false, s);
  heap_free = λ a s. s;
  create_process = λ line dir a s. (some (s.0, s.0 + 1), (s.0 + 2, s.0 ∷ ((s.0 + 1) ∷ s.1)));
  get_exit_code = λ h s. (some 7, s);
  close_handle = λ h s. (s.0, remove h s.1);
  close_console = λ c s. (s.0, remove c s.1);
}

memory_counts : Counts memory_os
unfolding count
memory_counts = record {
  opened = λ k s. count k s.1;
  pipe_opens = λ k s. omega arith;
  console_opens = λ k r w s. refl;
  process_opens = λ k line dir a s. omega arith;
  handle_closes = λ k h s o. count-remove k h s.1 o;
  console_closes = λ k c s o. count-remove k c s.1 o;
  alloc_keeps = λ k s. refl;
  init_keeps = λ k a s. refl;
  set_keeps = λ k a c s. refl;
  free_keeps = λ k a s. refl;
  look_keeps = λ k h s. refl;
}

-- Nothing is open, and no process was started.
abbrev fresh : WinProc memory_os
fresh = record {
  stdout_read = none;
  stdout_write = none;
  stdin_read = none;
  stdin_write = none;
  process = none;
  thread = none;
  console = none;
  exit_code = pos 0;
  outputs = [];
  os = (1, []);
}

fresh-Owns : Owns memory_counts fresh
unfolding memory_counts count
fresh-Owns k = refl

abbrev echo : Task
echo = record empty_task { exec_name = codes "echo"; args = codes "x" ∷ [] }

abbrev calls : List WinCall
calls = starts echo ∷ looks ∷ starts echo ∷ stops ∷ asks ∷ []

stop-call_all_example :
    Owns memory_counts (call_all calls fresh)
    × ((k : ℕ) → memory_counts.opened k (stop (call_all calls fresh)).os ≡ 0)
stop-call_all_example = stop-call_all memory_counts calls fresh fresh-Owns

started : (start echo fresh).0 ≡ false
unfolding start
started = refl

exit_code-stop_example :
    ((is_running (stop (start echo fresh).1)).0 ≡ false)
    × ((exit_code (stop (start echo fresh).1)).0 ≡ some (pos 259))
exit_code-stop_example = exit_code-stop echo fresh started
