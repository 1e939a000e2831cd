-- ===== src/QueueList/Create.antt =====
-- createQueue: what it does to the map of the queues.
use simple_task_queue.Common.{
  ◌≡◌, refl, sym, false, Option, none, some, List, Str, str_eq, if◌then◌else◌, Named, IsMap,
  lookup-assign, lookup-assign_other, IsMap-assign, Bool-cases, inl, inr, str_eq_sound, is_empty,
}
use simple_task_queue.ErrMsg.{os_error}
use simple_task_queue.Exec.{Result, ok, err, hang}
use simple_task_queue.Sqlite.{Sqlite}
use simple_task_queue.Process.{Process}
use simple_task_queue.Queue.{Queue, init, connected}
use simple_task_queue.QueueList.{QueueList, create_queue, get_queue, created}
use simple_task_queue.QueueList.Laws.{IsSound}

module _ {S : Sqlite} {P : Process} where
  -- What init says of a queue that it has made.
  abbrev IsIdle : P.State → Result (Unit {0}) × Queue S P → Type 0
  IsIdle process (ok x, q) = (q.process ≡ process) × (q.is_running ≡ false) × (q.start_flag ≡ false)
  IsIdle process (err code, q) = Unit {0}
  IsIdle process (hang, q) = Unit {0}

  -- What createQueue does to the map: the name has a queue that is idle, with the given process, and
  -- all other names are as they were.
  abbrev pub Created : Str → Option P.State → QueueList S P → QueueList S P → Type 0
  Created name process l l' =
      (q : Queue S P) × (some q.process ≡ process)
      × (q.is_running ≡ false)
      × (q.start_flag ≡ false)
      × ((k : Str) → get_queue k l' ≡ (if str_eq name k then some q else get_queue k l))

  -- How createQueue ends. It gives up only where the loops over the rows of the schema do.
  abbrev pub CreateEnds :
      Str → Option P.State → QueueList S P → Result (Unit {0}) × QueueList S P → Type 0
  CreateEnds name process l (ok x, l') = Created name process l l' × IsSound l'
  CreateEnds name process l (err code, l') = (code ≡ os_error) × (l' ≡ l)
  CreateEnds name process l (hang, l') = l' ≡ l

  created-Created :
      (name : Str) (process : P.State) (l : QueueList S P) (r : Result (Unit {0}) × Queue S P)
      → IsSound l
      → IsIdle process r
      → CreateEnds name (some process) l (created name l r)
  unfolding created get_queue
  created-Created name process l (ok x, q) u (e, f, g) = (
    (
      q,
      rw e refl,
      f,
      g,
      λ k. elim (Bool-cases (str_eq name k)) [
        | inl h ↦ rw (h, sym (str_eq_sound name k h)) (lookup-assign name q l.queues)
        | inr h ↦ rw h (lookup-assign_other name k q l.queues h)
      ],
    ),
    IsMap-assign name q l.queues u,
  )
  created-Created name process l (err code, q) u h = (refl, refl)
  created-Created name process l (hang, q) u h = refl

  connected-IsIdle :
      (process : P.State) (r : Result (Unit {0}) × Queue S P) → IsIdle process (connected process r)
  unfolding connected
  connected-IsIdle process (ok x, q) = (refl, refl, refl)
  connected-IsIdle process (err code, q) = tt
  connected-IsIdle process (hang, q) = tt

  init-IsIdle :
      (path : Str) (process : P.State) (name : Str) (q : Queue S P)
      → IsIdle process (init path (some process) name q)
  unfolding init
  init-IsIdle path process name q = elim (Bool-cases (is_empty name)) [
    | inl h ↦ rw h tt
    | inr h ↦ rw h (connected-IsIdle process _)
  ]

  create_queue_at :
      (blank : Queue S P) (process : P.State) (name : Str) (o : Option Str)
      (m : List (Named (Queue S P)))
      → IsMap m
      → (let l : QueueList S P = record { path = o; queues = m } in
          CreateEnds name (some process) l (create_queue blank (some process) name l))
  unfolding create_queue
  create_queue_at blank process name none m u = (refl, refl)
  create_queue_at blank process name (some path) m u =
      created-Created name process (record { path = some path; queues = m })
        (init path (some process) name blank) u (init-IsIdle path process name blank)

  -- In a list without a name twice, which it stays, createQueue either gives the name a new idle
  -- queue with the new process, in place of one that it had; or says OS_ERROR and changes nothing.
  -- All other names are as they were. If the loops of init use up their rounds nothing changes
  -- either.
  pub create_queue-Created :
      (blank : Queue S P) (process : Option P.State) (name : Str) (l : QueueList S P)
      → IsSound l
      → CreateEnds name process l (create_queue blank process name l)
  unfolding create_queue
  create_queue-Created blank none name l u = (refl, refl)
  create_queue-Created blank (some process) name l u =
      create_queue_at blank process name l.path l.queues u
