-- ===== src/QueueList/Scan.antt =====
-- init: the queues that it makes of the files in the directory.
use simple_task_queue.Common.{
  arith, sym, subst, ◌↔◌, some_inj, str_eq_sound, str_eq_refl, lookup, ◌⊎◌, ◌≡◌, refl, ap, ◌∙◌,
  Bool, true, false, Option, none, some, List, [], ◌∷◌, Str, str_eq, if◌then◌else◌, Bool-cases, inl,
  inr, ◌⊎◌,
}
use simple_task_queue.ErrMsg.{os_error, invalid_argument}
use simple_task_queue.Exec.{Result, ok, err, hang, Exec, continue}
use simple_task_queue.Sqlite.{Sqlite}
use simple_task_queue.Process.{Process}
use simple_task_queue.Queue.{Queue}
use simple_task_queue.QueueList.{
  QueueList, FileKind, regular_file, file_queue, scan, scan_entry, after_create, create_queue,
  init_list, get_queue,
}
use simple_task_queue.QueueList.Files.{IsDatabase, file_queue-IsDatabase}
use simple_task_queue.QueueList.Laws.{IsSound, is_some}
use simple_task_queue.QueueList.Create.{Created, CreateEnds, create_queue-Created}

-- Whether a file of the directory is the database of a queue with this name.
abbrev is_file_of : Str → Option Str → Bool
is_file_of k none = false
is_file_of k (some name) = str_eq name k

abbrev has_file : {A : Type 0} → Str → List (FileKind × Str × A) → Bool
has_file k [] = false
has_file k ((kind, path, process) ∷ files) =
    let rest = has_file k files in if is_file_of k (file_queue kind path) then true else rest

-- Among the files is the database of a queue with this name.
abbrev pub HasFile : {A : Type 0} → Str → List (FileKind × Str × A) → Type 0
HasFile k [] = ⊥
HasFile k ((kind, path, process) ∷ files) =
    ((kind ≡ regular_file) × IsDatabase k path) ⊎ HasFile k files

is_file_of_iff : (k : Str) (o : Option Str) → (is_file_of k o ≡ true) ↔ (o ≡ some k)
is_file_of_iff k none = ((λ h. absurd (cc h)), (λ h. absurd (cc h)))
is_file_of_iff k (some name) = (
  (λ h. ap some (str_eq_sound name k h)),
  (λ h. subst (λ n. str_eq n k ≡ true) (sym (some_inj h)) (str_eq_refl k)),
)

has_file_iff :
    {A : Type 0} (k : Str) (files : List (FileKind × Str × A))
    → (has_file k files ≡ true) ↔ HasFile k files
has_file_iff k [] = ((λ h. absurd (cc h)), (λ h. absurd h))
has_file_iff k ((kind, path, process) ∷ files) =
    let first = is_file_of_iff k (file_queue kind path) in
    let database = file_queue-IsDatabase kind path k in
    let rest = has_file_iff k files in
    elim (Bool-cases (is_file_of k (file_queue kind path))) [
      | inl e ↦ rw e ((λ h. inl (database.0 (first.0 e))), (λ h. refl))
      | inr e ↦ rw e (
        (λ h. inr (rest.0 h)),
        (λ h. elim h [ inl d ↦ absurd (cc (e, first.1 (database.1 d))) | inr d ↦ rest.1 d ]),
      )
    ]

either_name :
    (first rest before middle after : Bool)
    → after ≡ (if rest then true else middle)
    → middle ≡ (if first then true else before)
    → after ≡ (if (if first then true else rest) then true else before)
either_name first rest before middle after h k = ground (arith, h, k)

only_files : (b : Bool) → (if b then true else false) ≡ b
only_files true = refl
only_files false = refl

module _ {S : Sqlite} {P : Process} where
  -- How the scan ends: a name has a queue if it had one or there is a file for it; or nothing is left.
  abbrev ScanEnds : (Str → Bool) → QueueList S P → Result (Unit {0}) × QueueList S P → Type 0
  ScanEnds has l (ok x, l') =
      IsSound l'
      × ((k : Str) → is_some (get_queue k l') ≡ (if has k then true else is_some (get_queue k l)))
  ScanEnds has l (err code, l') = (code ≡ os_error) × (l'.queues ≡ []) × (l'.path ≡ none)
  ScanEnds has l (hang, l') = Unit {0}

  Created-name :
      (name k : Str) (process : Option P.State) (l l' : QueueList S P)
      → Created name process l l'
      → is_some (get_queue k l') ≡ (if str_eq name k then true else is_some (get_queue k l))
  Created-name name k process l l' (q, p, f, g, h) = elim (Bool-cases (str_eq name k)) [
    | inl e ↦ ap is_some (h k) ∙ rw e refl
    | inr e ↦ ap is_some (h k) ∙ rw e refl
  ]

  later-ScanEnds :
      (name : Str) (process : Option P.State) (has : Str → Bool) (l l1 : QueueList S P)
      (r : Result (Unit {0}) × QueueList S P)
      → Created name process l l1
      → ScanEnds has l1 r
      → ScanEnds (λ k. if str_eq name k then true else has k) l r
  later-ScanEnds name process has l l1 (ok x, l') made (sound, h) = (
    sound,
    λ k.
        either_name (str_eq name k) (has k) (is_some (get_queue k l)) (is_some (get_queue k l1))
          (is_some (get_queue k l')) (h k) (Created-name name k process l l1 made),
  )
  later-ScanEnds name process has l l1 (err code, l') made h = h
  later-ScanEnds name process has l l1 (hang, l') made h = h

  entry-ScanEnds :
      (name : Str) (process : Option P.State) (has : Str → Bool) (l : QueueList S P)
      (next : Exec (QueueList S P) (Unit {0})) (r : Result (Unit {0}) × QueueList S P)
      → CreateEnds name process l r
      → ((l1 : QueueList S P) → IsSound l1 → ScanEnds has l1 (next l1))
      → ScanEnds
          (λ k. if str_eq name k then true else has k)
          l
          (continue (λ _. next) (after_create r))
  unfolding after_create
  entry-ScanEnds name process has l next (ok x, l1) (made, sound) h =
      later-ScanEnds name process has l l1 (next l1) made (h l1 sound)
  entry-ScanEnds name process has l next (err code, l1) made h = (refl, refl, refl)
  entry-ScanEnds name process has l next (hang, l1) made h = tt

  scan_entry-ScanEnds :
      (blank : Queue S P) (process : Option P.State) (o : Option Str) (has : Str → Bool)
      (l : QueueList S P) (next : Exec (QueueList S P) (Unit {0}))
      → IsSound l
      → ((l1 : QueueList S P) → IsSound l1 → ScanEnds has l1 (next l1))
      → ScanEnds (λ k. if is_file_of k o then true else has k) l (scan_entry blank process o next l)
  unfolding scan_entry
  scan_entry-ScanEnds blank process none has l next sound h = h l sound
  scan_entry-ScanEnds blank process (some name) has l next sound h =
      entry-ScanEnds name process has l next (create_queue blank process name l)
        (create_queue-Created blank process name l sound) h

  scan-ScanEnds :
      (blank : Queue S P) (files : List (FileKind × Str × Option P.State)) (l : QueueList S P)
      → IsSound l
      → ScanEnds (λ k. has_file k files) l (scan blank files l)
  unfolding scan
  scan-ScanEnds blank [] l sound = (sound, λ k. refl)
  scan-ScanEnds blank ((kind, path, process) ∷ files) l sound =
      scan_entry-ScanEnds blank process (file_queue kind path) (λ k. has_file k files) l
        (scan blank files) sound (λ l1 u. scan-ScanEnds blank files l1 u)

  -- How init ends.
  abbrev pub InitEnds :
      List (FileKind × Str × Option P.State)
      → QueueList S P
      → Result (Unit {0}) × QueueList S P
      → Type 0
  InitEnds files l (ok x, l') =
      IsSound l' × ((k : Str) → (is_some (get_queue k l') ≡ true) ↔ HasFile k files)
  InitEnds files l (err code, l') =
      ((code ≡ os_error) × (l'.queues ≡ []) × (l'.path ≡ none))
      ⊎ ((code ≡ invalid_argument) × (l' ≡ l))
  InitEnds files l (hang, l') = Unit {0}

  scanned-InitEnds :
      (files : List (FileKind × Str × Option P.State)) (l l0 : QueueList S P)
      (r : Result (Unit {0}) × QueueList S P)
      → l0.queues ≡ []
      → ScanEnds (λ k. has_file k files) l0 r
      → InitEnds files l r
  unfolding get_queue
  scanned-InitEnds files l l0 (ok x, l') empty (sound, h) = (
    sound,
    λ k.
        let e =
          h k
          ∙ ap (λ m. if has_file k files then true else is_some (lookup k m)) empty
          ∙ only_files (has_file k files) in
        ((λ g. (has_file_iff k files).0 (sym e ∙ g)), (λ g. e ∙ (has_file_iff k files).1 g)),
  )
  scanned-InitEnds files l l0 (err code, l') empty h = inl h
  scanned-InitEnds files l l0 (hang, l') empty h = tt

  -- If init succeeds, a name has a queue exactly if the directory has a regular file, not a directory,
  -- that is called as the name with `.db` behind it, or, for the name `db`, a regular file `db`; and no
  -- name stands twice. If it says OS_ERROR no queue and no connection is left, and with
  -- INVALID_ARGUMENT nothing has changed.
  pub init_list-InitEnds :
      (blank : Queue S P) (path : Option Str) (dir_ok : Bool)
      (files : List (FileKind × Str × Option P.State)) (l : QueueList S P)
      → InitEnds files l (init_list blank path dir_ok files l)
  unfolding init_list
  init_list-InitEnds blank none dir_ok files l = inr (refl, refl)
  init_list-InitEnds blank (some path) false files l = inr (refl, refl)
  init_list-InitEnds blank (some path) true files l =
      scanned-InitEnds files l (record l { path = some path; queues = [] }) _ refl
        (scan-ScanEnds blank files (record l { path = some path; queues = [] }) tt)
