-- ===== src/Cli/MainRounds.antt =====
-- controller/cli/main.cpp: the terminal client ends with its lines.
use simple_task_queue.Common.{ℤ, ◌≡◌, some, Str}
use simple_task_queue.Cli.{IQueueList}
use simple_task_queue.Cli.Answers.{ListAnswers}
use simple_task_queue.Cli.Main.{Backends}

module _ {W : Type 0} where
  -- The lists of queues that the backends give answer.
  abbrev pub BackendsAnswer : Backends W → Type 0
  BackendsAnswer b =
      ((address : Str) (port : ℤ) (w : W) (l : IQueueList W)
        → (b.grpc address port w).0 ≡ some l
        → ListAnswers l)
      × ((address : Str) (w : W) (l : IQueueList W)
          → (b.sqlite address w).0 ≡ some l
          → ListAnswers l)
