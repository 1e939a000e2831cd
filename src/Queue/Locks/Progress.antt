-- ===== src/Queue/Locks/Progress.antt =====
-- Without mainLoopFin the two mutexes are taken in one order.
use simple_task_queue.Common.{
  ℕ, ◌≡◌, ◌≢◌, refl, subst, none, Option-cases, List, [], ◌∷◌, true, false, Bool-cases, ◌==◌, inl,
  inr,
}
use simple_task_queue.Queue.Locks.{
  token_mutex, current_task_mutex, Action, take_lock, drop_lock, Call, on_token, on_both, on_remove,
  on_current, token_locks, both_locks, remove_locks, current_locks, System, put_todo, Step, begins,
  takes, drops, Reach, at_start, and_then,
}
use simple_task_queue.Queue.Locks.Safety.{holds, IsPaired, IsFresh, Call-IsFresh, Inv, Reach-Inv}

-- The calls but mainLoopFin.
pub data Ordered : List Action → Type 0 where
  token_first : Ordered token_locks
  both_first : Ordered both_locks
  remove_first : Ordered remove_locks
  current_first : Ordered current_locks

-- Where the token is taken the current task is not held.
abbrev IsOrdered : List Action → Type 0
IsOrdered [] = Unit {0}
IsOrdered (take_lock token_mutex ∷ l) = (holds current_task_mutex l ≡ false) × IsOrdered l
IsOrdered (take_lock current_task_mutex ∷ l) = IsOrdered l
IsOrdered (drop_lock m ∷ l) = IsOrdered l

call : (l : List Action) → Ordered l → Call l
call l token_first = on_token
call l both_first = on_both
call l remove_first = on_remove
call l current_first = on_current

fresh : (l : List Action) → Ordered l → IsFresh l
fresh l c = Call-IsFresh l (call l c)

ordered : (l : List Action) → Ordered l → IsOrdered l
ordered l token_first = (refl, tt)
ordered l both_first = (refl, tt)
ordered l remove_first = (refl, tt)
ordered l current_first = tt

put-IsOrdered :
    (f : ℕ → List Action) (i : ℕ) (l : List Action)
    → IsOrdered l
    → ((j : ℕ) → IsOrdered (f j))
    → (j : ℕ) → IsOrdered (put_todo i l f j)
put-IsOrdered f i l h k j = elim (Bool-cases (i == j)) [ inl e ↦ rw e h | inr e ↦ rw e (k j) ]

rest-IsOrdered : (a : Action) (l : List Action) → IsOrdered (a ∷ l) → IsOrdered l
rest-IsOrdered (take_lock token_mutex) l h = h.1
rest-IsOrdered (take_lock current_task_mutex) l h = h
rest-IsOrdered (drop_lock m) l h = h

Reach-IsOrdered : {s : System} → Reach Ordered s → (j : ℕ) → IsOrdered (s.todo j)
Reach-IsOrdered at_start j = tt
Reach-IsOrdered (and_then {s} r (begins i l e c)) j =
    put-IsOrdered s.todo i l (ordered l c) (Reach-IsOrdered r) j
Reach-IsOrdered (and_then {s} r (takes i m l e free)) j =
    put-IsOrdered s.todo i l
      (rest-IsOrdered (take_lock m) l (subst IsOrdered e (Reach-IsOrdered r i))) (Reach-IsOrdered r)
      j
Reach-IsOrdered (and_then {s} r (drops i m l e)) j =
    put-IsOrdered s.todo i l
      (rest-IsOrdered (drop_lock m) l (subst IsOrdered e (Reach-IsOrdered r i))) (Reach-IsOrdered r)
      j

-- The thread that makes a step.
abbrev thread_of : {Calls : List Action → Type 0} {s t : System} → Step Calls s t → ℕ
thread_of (begins i l e c) = i
thread_of (takes i m l e free) = i
thread_of (drops i m l e) = i

-- Some thread is in a call and can make a step, which goes on with this call.
abbrev pub Moves : System → Type 0
Moves s = (t : System) × (st : Step Ordered s t) × (s.todo (thread_of st) ≢ [])

module _ {s : System} (r : Reach Ordered s) where
  inv : Inv s
  inv = Reach-Inv fresh r

  -- The owner of the current task's mutex is not waiting.
  current_owner-Moves :
      (i : ℕ) (l : List Action)
      → s.todo i ≡ l
      → holds current_task_mutex l ≡ true
      → IsPaired l
      → IsOrdered l
      → Moves s
  current_owner-Moves i [] e h p o = absurd (cc h)
  current_owner-Moves i (take_lock token_mutex ∷ l) e h p o = absurd (cc (h, o.0))
  current_owner-Moves i (take_lock current_task_mutex ∷ l) e h p o = absurd (cc h)
  current_owner-Moves i (drop_lock m ∷ l) e h p o = (_, drops i m l e, (λ g. cc (g, e)))

  -- Nor is that of the token's, if the other mutex is free.
  token_owner-Moves :
      (i : ℕ) (l : List Action)
      → s.todo i ≡ l
      → s.owner current_task_mutex ≡ none
      → holds token_mutex l ≡ true
      → Moves s
  token_owner-Moves i [] e free h = absurd (cc h)
  token_owner-Moves i (take_lock token_mutex ∷ l) e free h = absurd (cc h)
  token_owner-Moves i (take_lock current_task_mutex ∷ l) e free h =
      (_, takes i current_task_mutex l e free, (λ g. cc (g, e)))
  token_owner-Moves i (drop_lock m ∷ l) e free h = (_, drops i m l e, (λ g. cc (g, e)))

  free-Moves :
      (i : ℕ) (l : List Action)
      → s.todo i ≡ l
      → l ≢ []
      → s.owner current_task_mutex ≡ none
      → s.owner token_mutex ≡ none
      → Moves s
  free-Moves i [] e busy free free' = absurd (busy refl)
  free-Moves i (take_lock token_mutex ∷ l) e busy free free' =
      (_, takes i token_mutex l e free', (λ g. cc (g, e)))
  free-Moves i (take_lock current_task_mutex ∷ l) e busy free free' =
      (_, takes i current_task_mutex l e free, (λ g. cc (g, e)))
  free-Moves i (drop_lock m ∷ l) e busy free free' = (_, drops i m l e, (λ g. cc (g, e)))

  -- As long as no thread is in mainLoopFin, the threads never wait for one another in a circle: where
  -- some thread is in a call, some thread that is in a call, this one or another, can go on with its
  -- own call: it takes a mutex that is free or gives one back.
  pub Reach-Moves : (i : ℕ) → s.todo i ≢ [] → Moves s
  Reach-Moves i busy = elim (Option-cases (s.owner current_task_mutex)) [
    | inr (j, e) ↦
        current_owner-Moves j (s.todo j) refl ((inv.owned current_task_mutex j).0 e) (inv.paired j)
          (Reach-IsOrdered r j)
    | inl free ↦ elim (Option-cases (s.owner token_mutex)) [
      | inr (j, e) ↦ token_owner-Moves j (s.todo j) refl free ((inv.owned token_mutex j).0 e)
      | inl free' ↦ free-Moves i (s.todo i) refl busy free free'
    ]
  ]
