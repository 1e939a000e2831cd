-- ===== src/Server/Laws.antt =====
-- How a handler answers, as a client sees it.

use simple_task_queue.ErrMsg.{StatusCode}
use simple_task_queue.Sqlite.{Sqlite}
use simple_task_queue.Process.{Process}
use simple_task_queue.QueueList.{QueueList}
use simple_task_queue.Server.{Reply, replied, refused, stuck}

module _ {S : Sqlite} {P : Process} where
  -- How a call is answered: with a value, or with another status.
  abbrev pub Answers :
      {A : Type 0} → (StatusCode → Type 0) → (A → Type 0) → Reply A × QueueList S P → Type 0
  Answers E Q (replied a, l) = Q a
  Answers E Q (refused status msg, l) = E status
  Answers E Q (stuck, l) = ⊥
