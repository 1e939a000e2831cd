-- ===== src/QueueList/Examples.antt =====
-- A list of two queues in memory, on which the lemmas about the list are tried.
use simple_task_queue.Common.{
  ◌≡◌, refl, some, none, [], ◌∷◌, Str, codes, if◌then◌else◌, str_eq, false,
}
use simple_task_queue.Exec.{Ends}
use simple_task_queue.ErrMsg.{not_found}
use simple_task_queue.Queue.Sample.{memory}
use simple_task_queue.Queue.Examples.{instant, started}
use simple_task_queue.QueueList.{
  QueueList, rename_queue, delete_queue, list_queue, create_queue, get_queue,
}
use simple_task_queue.QueueList.Laws.{
  Renamed, IsSound, rename_queue-Renamed, delete_queue-get_queue, list_queue-get_queue, has_name,
  is_some,
}
use simple_task_queue.QueueList.Create.{create_queue-Created, CreateEnds}

abbrev pub two_queues : QueueList memory instant
two_queues = record {
  path = some (codes "/srv");
  queues =
      record { name = codes "a"; value = started }
      ∷ record { name = codes "b"; value = record started { is_running = false } }
      ∷ [];
}

pub two_queues-IsSound : IsSound two_queues
unfolding str_eq
two_queues-IsSound = (refl, (refl, tt))

-- Renaming a queue to its own name loses it.
lost_queue : get_queue (codes "a") (rename_queue (codes "a") (codes "a") two_queues).1 ≡ none
unfolding get_queue rename_queue str_eq
lost_queue = refl

rename_queue-Renamed_example :
    Ends
      (λ c l'. (c ≡ not_found) × (get_queue (codes "a") two_queues ≡ none) × (l' ≡ two_queues))
      (λ _ l'. Renamed (codes "a") (codes "c") two_queues l' × IsSound l')
      (rename_queue (codes "a") (codes "c") two_queues)
rename_queue-Renamed_example =
    rename_queue-Renamed (codes "a") (codes "c") two_queues two_queues-IsSound

delete_queue-get_queue_example :
    Ends
      (λ c l'. (c ≡ not_found) × (get_queue (codes "a") two_queues ≡ none) × (l' ≡ two_queues))
      (λ _ l'.
        ((k : Str)
          → get_queue k l' ≡ (if str_eq (codes "a") k then none else get_queue k two_queues))
        × IsSound l')
      (delete_queue (codes "a") two_queues)
delete_queue-get_queue_example = delete_queue-get_queue (codes "a") two_queues two_queues-IsSound

create_queue-Created_example :
    CreateEnds
      (codes "c")
      (some tt)
      two_queues
      (create_queue started (some tt) (codes "c") two_queues)
create_queue-Created_example =
    create_queue-Created started (some tt) (codes "c") two_queues two_queues-IsSound

list_queue-get_queue_example :
    Ends
      (λ c l'.
        (c ≡ not_found)
        × ((k : Str) → is_some (get_queue k two_queues) ≡ false)
        × (l' ≡ two_queues))
      (λ out l'.
        ((k : Str) → has_name k out ≡ is_some (get_queue k two_queues)) × (l' ≡ two_queues))
      (list_queue two_queues)
list_queue-get_queue_example = list_queue-get_queue two_queues
