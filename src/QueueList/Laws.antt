-- ===== src/QueueList/Laws.antt =====
-- The queue list as a map from names to queues: what each operation does to every name.
use simple_task_queue.Common.{
  ◌≡◌, refl, sym, Bool, true, false, Option, none, some, List, [], ◌∷◌, Str, str_eq, if◌then◌else◌,
  Named, lookup, assign, erase, names, IsMap, lookup-assign, lookup-assign_other, lookup-erase,
  lookup-erase_other, IsMap-assign, IsMap-erase, Bool-cases, inl, inr, str_eq_sound,
}
use simple_task_queue.ErrMsg.{not_found}
use simple_task_queue.Exec.{Ends}
use simple_task_queue.Sqlite.{Sqlite}
use simple_task_queue.Process.{Process}
use simple_task_queue.Queue.{Queue}
use simple_task_queue.QueueList.{
  QueueList, list_queue, delete_queue, rename_queue, get_queue, renamed, deleted, listed,
}

abbrev pub has_name : Str → List Str → Bool
has_name k [] = false
has_name k (n ∷ ns) = if str_eq n k then true else has_name k ns

abbrev pub is_some {ℓ} : {V : Type ℓ} → Option V → Bool
is_some none = false
is_some (some q) = true

has_name-names {ℓ} :
    {V : Type ℓ} (k : Str) (m : List (Named V)) → has_name k (names m) ≡ is_some (lookup k m)
has_name-names k [] = refl
has_name-names k (e ∷ es) = elim (Bool-cases (str_eq e.name k)) [
  | inl h ↦ rw h refl
  | inr h ↦ rw h (has_name-names k es)
]

module _ {S : Sqlite} {P : Process} where
  -- No two queues of the list have one name.
  abbrev pub IsSound : QueueList S P → Type 0
  IsSound l = IsMap l.queues

  -- What renameQueue does to the map: the entry of the old name goes to the new one and the old name
  -- is free. If the names are equal the queue is lost.
  abbrev pub Renamed : Str → Str → QueueList S P → QueueList S P → Type 0
  Renamed old_name new_name l l' =
      (k : Str)
      → get_queue k l' ≡ (
          if str_eq old_name k
          then none
          else if str_eq new_name k
          then get_queue old_name l
          else get_queue k l)

  erase-assign :
      (old_name new_name k : Str) (q : Queue S P) (m : List (Named (Queue S P)))
      → IsMap m
      → lookup k (erase old_name (assign new_name q m))
        ≡ (if str_eq old_name k then none else if str_eq new_name k then some q else lookup k m)
  erase-assign old_name new_name k q m u = elim (Bool-cases (str_eq old_name k)) [
    | inl h ↦
        rw (h, sym (str_eq_sound old_name k h))
          (lookup-erase old_name (assign new_name q m) (IsMap-assign new_name q m u))
    | inr h ↦
        rw (h, lookup-erase_other old_name k (assign new_name q m) h)
          (elim (Bool-cases (str_eq new_name k)) [
            | inl g ↦ rw (g, sym (str_eq_sound new_name k g)) (lookup-assign new_name q m)
            | inr g ↦ rw g (lookup-assign_other new_name k q m g)
          ])
  ]

  renamed-Renamed :
      (old_name new_name : Str) (l : QueueList S P) (o : Option (Queue S P))
      → get_queue old_name l ≡ o
      → IsSound l
      → Ends
          (λ c l'. (c ≡ not_found) × (get_queue old_name l ≡ none) × (l' ≡ l))
          (λ _ l'. Renamed old_name new_name l l' × IsSound l')
          (renamed old_name new_name l o)
  unfolding renamed get_queue
  renamed-Renamed old_name new_name l none h u = (refl, h, refl)
  renamed-Renamed old_name new_name l (some q) h u = (
    (λ k. rw h (erase-assign old_name new_name k q l.queues u)),
    IsMap-erase old_name (assign new_name q l.queues) (IsMap-assign new_name q l.queues u),
  )

  -- In a list without a name twice, which it stays, renameQueue says NOT_FOUND where the old name
  -- has no queue, and changes nothing; else the queue of the old name has the new name afterwards,
  -- in place of a queue that had it, the old name has none (also if the two are equal, and then the
  -- queue is lost), and all other names are as they were.
  pub rename_queue-Renamed :
      (old_name new_name : Str) (l : QueueList S P)
      → IsSound l
      → Ends
          (λ c l'. (c ≡ not_found) × (get_queue old_name l ≡ none) × (l' ≡ l))
          (λ _ l'. Renamed old_name new_name l l' × IsSound l')
          (rename_queue old_name new_name l)
  unfolding rename_queue get_queue
  rename_queue-Renamed old_name new_name l u =
      renamed-Renamed old_name new_name l (get_queue old_name l) refl u

  deleted-get_queue :
      (name : Str) (l : QueueList S P) (o : Option (Queue S P))
      → get_queue name l ≡ o
      → IsSound l
      → Ends
          (λ c l'. (c ≡ not_found) × (get_queue name l ≡ none) × (l' ≡ l))
          (λ _ l'.
            ((k : Str) → get_queue k l' ≡ (if str_eq name k then none else get_queue k l))
            × IsSound l')
          (deleted name l o)
  unfolding deleted get_queue
  deleted-get_queue name l none h u = (refl, h, refl)
  deleted-get_queue name l (some q) h u = (
    (λ k. elim (Bool-cases (str_eq name k)) [
      | inl g ↦ rw (g, sym (str_eq_sound name k g)) (lookup-erase name l.queues u)
      | inr g ↦ rw g (lookup-erase_other name k l.queues g)
    ]),
    IsMap-erase name l.queues u,
  )

  -- In a list without a name twice, which it stays, deleteQueue says NOT_FOUND where the name has
  -- no queue, and changes nothing; else the name has none afterwards and all other names are as
  -- they were.
  pub delete_queue-get_queue :
      (name : Str) (l : QueueList S P)
      → IsSound l
      → Ends
          (λ c l'. (c ≡ not_found) × (get_queue name l ≡ none) × (l' ≡ l))
          (λ _ l'.
            ((k : Str) → get_queue k l' ≡ (if str_eq name k then none else get_queue k l))
            × IsSound l')
          (delete_queue name l)
  unfolding delete_queue get_queue
  delete_queue-get_queue name l u = deleted-get_queue name l (get_queue name l) refl u

  abbrev Lists : QueueList S P → List Str → Type 0
  Lists l out = (k : Str) → has_name k out ≡ is_some (get_queue k l)

  listed-Lists :
      (l : QueueList S P) (out : List Str)
      → Lists l out
      → Ends
          (λ c l'. (c ≡ not_found) × ((k : Str) → is_some (get_queue k l) ≡ false) × (l' ≡ l))
          (λ out l'. Lists l out × (l' ≡ l))
          (listed l out)
  unfolding listed
  listed-Lists l [] h = (refl, (λ k. sym (h k)), refl)
  listed-Lists l (n ∷ ns) h = (h, refl)

  -- listQueue gives exactly the names that have a queue, or NOT_FOUND if no name has one, and changes
  -- nothing.
  pub list_queue-get_queue :
      (l : QueueList S P)
      → Ends
          (λ c l'. (c ≡ not_found) × ((k : Str) → is_some (get_queue k l) ≡ false) × (l' ≡ l))
          (λ out l'. ((k : Str) → has_name k out ≡ is_some (get_queue k l)) × (l' ≡ l))
          (list_queue l)
  unfolding list_queue get_queue
  list_queue-get_queue l = listed-Lists l (names l.queues) (λ k. has_name-names k l.queues)
