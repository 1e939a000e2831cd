-- ===== src/Queue/Spec.antt =====
-- What a queue promises, without SQLite: the pending tasks in order, the finished ones, and the next
-- number.
use simple_task_queue.Common.{
  ◌≤◌, ◌≢◌, ℕ, ◌+◌, ◌<◌, ◌≡◌, refl, List, [], ◌∷◌, ◌++◌, ℤ, pos, int_eq, to_int32, to_int32_id,
  if◌then◌else◌, true, false, Bool-cases, inl, inr, arith, int_eq_iff,
}
use simple_task_queue.Task.{Task}
use simple_task_queue.Exec.{Result, ok, err, hang, Ends}
use simple_task_queue.Sqlite.{Sqlite}
use simple_task_queue.Process.{Process}
use simple_task_queue.Queue.{Queue, add_task, remove_task, clear_pending, clear_finished}
use simple_task_queue.Queue.MainLoop.{round}
use simple_task_queue.Queue.Contract.{Store, Entry, without_id}
use simple_task_queue.Queue.TableLaws.{entry_of_task}
use simple_task_queue.Queue.IdLaws.{next_id}
use simple_task_queue.Queue.Rounds.{finished}

pub record Spec : Type 0 where
  pub pending : List Entry
  pub done : List Entry
  pub next : ℕ

abbrev pub store_of : Spec → Store
store_of s = record { pending = s.pending; done = s.done; last_id = pos s.next ∷ [] }

-- A call from outside, or a round of the main loop.
pub data Change : Type 0 where
  adds : Task → Change
  removes : ℤ → Change
  clears_pending clears_done next_round : Change

abbrev pub run_first : (Task → ℤ) → List Entry → Spec → Spec
run_first code [] s = s
run_first code (e ∷ es) s = record s { pending = es; done = s.done ++ finished code e ∷ [] }

-- The number 0 is not removed: it is that of the task of an idle queue.
abbrev pub spec_step : (Task → ℤ) → Change → Spec → Spec
spec_step code (adds task) s = record s {
  pending = s.pending ++ entry_of_task (record task { id = pos s.next }) ∷ [];
  next = s.next + 1;
}
spec_step code (removes id) s =
    if int_eq id (pos 0) then s else record s { pending = without_id (to_int32 id) s.pending }
spec_step code clears_pending s = record s { pending = [] }
spec_step code clears_done s = record s { done = [] }
spec_step code next_round s = run_first code s.pending s

abbrev pub spec_run : (Task → ℤ) → List Change → Spec → Spec
spec_run code [] s = s
spec_run code (c ∷ cs) s = spec_run code cs (spec_step code c s)

module _ {S : Sqlite} {P : Process} where
  -- What the code does with the queue.
  abbrev pub perform : ℕ → Change → Queue S P → Queue S P
  perform waits (adds task) q = (add_task task q).1
  perform waits (removes id) q = (remove_task id q).1
  perform waits clears_pending q = (clear_pending q).1
  perform waits clears_done q = (clear_finished q).1
  perform waits next_round q = (round waits q).1

  abbrev pub perform_all : ℕ → List Change → Queue S P → Queue S P
  perform_all waits [] q = q
  perform_all waits (c ∷ cs) q = perform_all waits cs (perform waits c q)

-- The state behind an action that cannot fail.
pub Ends-state :
    {S A : Type 0} (Q : S → Type 0) (r : Result A × S) → Ends (λ _. Q) (λ _. Q) r → Q r.1
Ends-state Q (ok a, s) h = h
Ends-state Q (err c, s) h = h
Ends-state Q (hang, s) h = absurd h

pub cons_inj : {x y : ℤ} → ◌≡◌ {A = List ℤ} (x ∷ []) (y ∷ []) → x ≡ y
cons_inj h = cc

pub true_ne : true ≢ false
true_ne h = cc

pub next_id-pos : (n : ℕ) → n + 1 < 2147483648 → next_id (pos n) ≡ pos (n + 1)
next_id-pos n h =
    rw (to_int32_id (pos n) (omega (arith, h)), (int_eq_iff (pos n) (pos n)).1 refl)
      (to_int32_id (pos (n + 1)) h)

first_next :
    (code : Task → ℤ) (ps : List Entry) (s : Spec) → (run_first code ps s).next ≤ s.next + 1
first_next code [] s = omega arith
first_next code (e ∷ es) s = omega arith

-- A step gives out one number at most.
pub spec_next : (code : Task → ℤ) (c : Change) (s : Spec) → (spec_step code c s).next ≤ s.next + 1
spec_next code (adds task) s = omega arith
spec_next code (removes id) s = elim (Bool-cases (int_eq id (pos 0))) [
  | inl h ↦ rw h (omega arith)
  | inr h ↦ rw h (omega arith)
]
spec_next code clears_pending s = omega arith
spec_next code clears_done s = omega arith
spec_next code next_round s = first_next code s.pending s
