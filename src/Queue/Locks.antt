-- ===== src/Queue/Locks.antt =====
-- model/dao/sqlitequeue.cpp: the mutexes that the methods and the thread of a queue take, m_token->mutex
-- and m_currentTaskMutex, and in which order.
pub mod Safety
pub mod Progress
pub mod Deadlock
pub mod Examples
use simple_task_queue.Common.{
  ℕ, ◌≡◌, Option, none, some, List, [], ◌∷◌, Bool, true, false, ◌==◌, if◌then◌else◌,
}

pub data Mutex : Type 0 where
  token_mutex current_task_mutex : Mutex

pub data Action : Type 0 where
  take_lock drop_lock : Mutex → Action

-- A method that holds the database alone, such as listPending and addTask.
abbrev pub token_locks : List Action
token_locks = take_lock token_mutex ∷ drop_lock token_mutex ∷ []

-- clearPending, and mainLoopInit where there is a row.
abbrev pub both_locks : List Action
both_locks =
    take_lock token_mutex
    ∷ take_lock current_task_mutex
    ∷ drop_lock current_task_mutex
    ∷ drop_lock token_mutex
    ∷ []

-- removeTask: the check of the current task has a block of its own.
abbrev pub remove_locks : List Action
remove_locks =
    take_lock token_mutex
    ∷ take_lock current_task_mutex
    ∷ drop_lock current_task_mutex
    ∷ drop_lock token_mutex
    ∷ []

-- currentTask, and mainLoopFin where the exit code fails.
abbrev pub current_locks : List Action
current_locks = take_lock current_task_mutex ∷ drop_lock current_task_mutex ∷ []

-- mainLoopFin.
abbrev pub fin_locks : List Action
fin_locks =
    take_lock current_task_mutex
    ∷ take_lock token_mutex
    ∷ drop_lock token_mutex
    ∷ drop_lock current_task_mutex
    ∷ []

-- What a thread may call.
pub data Call : List Action → Type 0 where
  on_token : Call token_locks
  on_both : Call both_locks
  on_remove : Call remove_locks
  on_current : Call current_locks
  on_fin : Call fin_locks

abbrev pub same_mutex : Mutex → Mutex → Bool
same_mutex token_mutex token_mutex = true
same_mutex token_mutex current_task_mutex = false
same_mutex current_task_mutex token_mutex = false
same_mutex current_task_mutex current_task_mutex = true

-- The owner of each mutex, and what each thread has still to do in its call.
pub record System : Type 0 where
  pub owner : Mutex → Option ℕ
  pub todo : ℕ → List Action

abbrev pub put_owner : Mutex → Option ℕ → (Mutex → Option ℕ) → Mutex → Option ℕ
put_owner m o f k = if same_mutex m k then o else f k

abbrev pub put_todo : ℕ → List Action → (ℕ → List Action) → ℕ → List Action
put_todo i l f j = if i == j then l else f j

abbrev pub idle : System
idle = record { owner = λ m. none; todo = λ i. [] }

-- A step of the thread `i`: it begins a call of `Calls`, takes a mutex that is free, or gives one back.
pub data Step (Calls : List Action → Type 0) (s : System) : System → Type 0 where
  begins :
      (i : ℕ) (l : List Action)
      → s.todo i ≡ []
      → Calls l
      → Step Calls s (record s { todo = put_todo i l s.todo })
  takes :
      (i : ℕ) (m : Mutex) (l : List Action)
      → s.todo i ≡ take_lock m ∷ l
      → s.owner m ≡ none
      → Step Calls s (record { owner = put_owner m (some i) s.owner; todo = put_todo i l s.todo })
  drops :
      (i : ℕ) (m : Mutex) (l : List Action)
      → s.todo i ≡ drop_lock m ∷ l
      → Step Calls s (record { owner = put_owner m none s.owner; todo = put_todo i l s.todo })

-- What any number of threads may come to from the idle system.
pub data Reach (Calls : List Action → Type 0) : System → Type 0 where
  at_start : Reach Calls idle
  and_then : {s t : System} → Reach Calls s → Step Calls s t → Reach Calls t
