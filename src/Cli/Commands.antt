-- ===== src/Cli/Commands.antt =====
-- controller/cli/queue.cpp and queuelist.cpp: every command ends, where the calls of the interface do.
use simple_task_queue.Common.{
  ℕ, ◌==◌, ltb, Option, none, some, List, [], ◌∷◌, Str, codes, ℤ, length, str_eq, to_int32,
}
use simple_task_queue.Task.{empty_task}
use simple_task_queue.Exec.{Result, ok, err, hang, Exec, continue}
use simple_task_queue.Cli.{
  IQueue, IQueueList, Session, Parser, AddOpts, back, on_world, say, text, task,
}
use simple_task_queue.Cli.Queue.{
  noted, list_in, cli_list, details_in, cli_details, clear_in, cli_clear, cli_current, add_with,
  cli_add, remove_all, remove_in, cli_remove, cli_is_running, cli_start, cli_stop, cli_output,
  queue_command, new_task,
}
use simple_task_queue.Cli.QueueList.{
  cli_create, cli_delete, cli_list_queue, cli_rename, list_command,
}
use simple_task_queue.Cli.Answers.{
  NoHang, Answers, ListAnswers, Finishes, Ready, branch-Finishes, attempting-Finishes,
  parsed-Finishes, refuse-Finishes, with_options-Finishes, without_options-Finishes,
  print_lines-Finishes, print_list-Finishes, given-Finishes, branch-Ready, said-Finishes,
}

module _ {W : Type 0} where
  module _ (q : IQueue W) (p : Parser) (answers : Answers q) where
    list_in-Finishes : (mode : ℕ) → Finishes (list_in q p mode)
    unfolding list_in
    list_in-Finishes mode =
        branch-Finishes (mode == 1) _ _
          (λ s.
            attempting-Finishes "Fail to list tasks" q.list_pending _ answers.list_pending
              (print_list-Finishes "pending list is empty") _)
          (branch-Finishes (mode == 2) _ _
            (λ s.
              attempting-Finishes "Fail to list tasks" q.list_finished _ answers.list_finished
                (print_list-Finishes "finished list is empty") _)
            refuse-Finishes)

    details_in-Finishes : (mode : ℕ) (id : ℤ) → Finishes (details_in q p mode id)
    unfolding details_in
    details_in-Finishes mode id =
        branch-Finishes (mode == 1) _ _
          (λ s.
            attempting-Finishes "Fail to get task details"
              (q.pending_details (to_int32 id) empty_task) _
              (answers.pending_details (to_int32 id) empty_task)
              (λ out. said-Finishes (task out) out) _)
          (branch-Finishes (mode == 2) _ _
            (λ s.
              attempting-Finishes "Fail to get task details"
                (q.finished_details (to_int32 id) empty_task) _
                (answers.finished_details (to_int32 id) empty_task)
                (λ out. said-Finishes (task out) out) _)
            refuse-Finishes)

    clear_in-Finishes : (mode : ℕ) → Finishes (clear_in q p mode)
    unfolding clear_in
    clear_in-Finishes mode =
        branch-Finishes (mode == 1) _ _
          (attempting-Finishes "Fail to clear tasks" q.clear_pending _ answers.clear_pending
            (said-Finishes (text "done")))
          (branch-Finishes (mode == 2) _ _
            (attempting-Finishes "Fail to clear tasks" q.clear_finished _ answers.clear_finished
              (said-Finishes (text "done")))
            refuse-Finishes)

    add_with-Finishes : (o : AddOpts) (exec : Option Str) → Finishes (add_with q p o exec)
    unfolding add_with
    add_with-Finishes o none = λ s. tt
    add_with-Finishes o (some exec) =
        attempting-Finishes "Fail to add task" (q.add_task (new_task o exec)) _
          (answers.add_task (new_task o exec)) (said-Finishes (text "done"))

    noted-Finishes :
        (id : ℤ) (next : Exec (Session W) (Unit {0})) (r : Result (Unit {0}) × Session W)
        → NoHang r
        → Finishes next
        → NoHang (continue (λ _. next) (noted id r))
    noted-Finishes id next (ok a, s) h k = k s
    noted-Finishes id next (err code, s) h k = k _
    noted-Finishes id next (hang, s) h k = h

    back-NoHang : {A : Type 0} (s : Session W) (r : Result A × W) → NoHang r → NoHang (back s r)
    back-NoHang s (ok a, w) h = tt
    back-NoHang s (err code, w) h = tt
    back-NoHang s (hang, w) h = h

    remove_all-Finishes : (ids : List ℤ) → Finishes (remove_all q p ids)
    unfolding remove_all
    remove_all-Finishes [] s = tt
    remove_all-Finishes (id ∷ ids) s =
        noted-Finishes id (remove_all q p ids) (on_world (q.remove_task id) s)
          (back-NoHang s (q.remove_task id s.world) (answers.remove_task id s.world))
          (remove_all-Finishes ids)

    then-NoHang :
        {A : Type 0} (next : Exec (Session W) (Unit {0})) (r : Result A × Session W)
        → NoHang r
        → Finishes next
        → NoHang (continue (λ _. next) r)
    then-NoHang next (ok a, s) h k = k s
    then-NoHang next (err code, s) h k = tt
    then-NoHang next (hang, s) h k = h

    remove_in-Finishes : (o : Option (List ℤ)) → Finishes (remove_in q p o)
    unfolding remove_in
    remove_in-Finishes none = refuse-Finishes
    remove_in-Finishes (some ids) = λ s.
        then-NoHang (say (text "done")) (remove_all q p ids s) (remove_all-Finishes ids s)
          (said-Finishes (text "done") ids)

    list-Ready : Ready (some (cli_list q p))
    unfolding cli_list
    list-Ready = with_options-Finishes p.mode (list_in q p) list_in-Finishes

    details-Ready : Ready (some (cli_details q p))
    unfolding cli_details
    details-Ready =
        with_options-Finishes p.mode_and_id (λ o. details_in q p o.0 o.1)
          (λ o. details_in-Finishes o.0 o.1)

    clear-Ready : Ready (some (cli_clear q p))
    unfolding cli_clear
    clear-Ready = with_options-Finishes p.mode (clear_in q p) clear_in-Finishes

    remove-Ready : Ready (some (cli_remove q p))
    unfolding cli_remove
    remove-Ready = with_options-Finishes p.remove (remove_in q p) remove_in-Finishes

    current-Ready : Ready (some (cli_current q p))
    unfolding cli_current
    current-Ready = without_options-Finishes p.only_help _ (λ _.
        attempting-Finishes "Fail to get current task" (q.current_task empty_task) _
          (answers.current_task empty_task) (λ out. said-Finishes (task out) out))

    add-Ready : Ready (some (cli_add q p))
    unfolding cli_add
    add-Ready =
        with_options-Finishes p.add (λ o. add_with q p o o.exec) (λ o. add_with-Finishes o o.exec)

    is_running-Ready : Ready (some (cli_is_running q p))
    unfolding cli_is_running
    is_running-Ready = without_options-Finishes p.only_help _ (λ _ s. tt)

    start-Ready : Ready (some (cli_start q p))
    unfolding cli_start
    start-Ready = without_options-Finishes p.only_help _ (λ _.
        attempting-Finishes "Fail to start the queue" q.start _ answers.start
          (said-Finishes (text "done")))

    stop-Ready : Ready (some (cli_stop q p))
    unfolding cli_stop
    stop-Ready = without_options-Finishes p.only_help _ (λ _ s. tt)

    output-Ready : Ready (some (cli_output q p))
    unfolding cli_output
    output-Ready =
        without_options-Finishes p.only_help _
          (λ _ s. print_lines-Finishes (q.read_current_output s.world).0 _)

    pub queue_command-Ready : (name : Str) → Ready (queue_command q p name)
    unfolding queue_command
    queue_command-Ready name = branch-Ready (str_eq name (codes "list")) _ _ list-Ready (
        branch-Ready (str_eq name (codes "details")) _ _ details-Ready (
          branch-Ready (str_eq name (codes "clear")) _ _ clear-Ready (
            branch-Ready (str_eq name (codes "remove")) _ _ remove-Ready (
              branch-Ready (str_eq name (codes "current")) _ _ current-Ready (
                branch-Ready (str_eq name (codes "add")) _ _ add-Ready (
                  branch-Ready (str_eq name (codes "isRunning")) _ _ is_running-Ready (
                    branch-Ready (str_eq name (codes "start")) _ _ start-Ready (
                      branch-Ready (str_eq name (codes "stop")) _ _ stop-Ready
                        (branch-Ready (str_eq name (codes "output")) _ _ output-Ready tt)))))))))

  module _ (l : IQueueList W) (p : Parser) (answers : ListAnswers l) where
    create-Ready : Ready (some (cli_create l p))
    unfolding cli_create
    create-Ready = with_options-Finishes p.name _ (λ o. given-Finishes o _ (λ name.
        attempting-Finishes "Fail to create queue" (l.create_queue name) _
          (answers.create_queue name) (said-Finishes (text "done"))))

    delete-Ready : Ready (some (cli_delete l p))
    unfolding cli_delete
    delete-Ready = with_options-Finishes p.name _ (λ o. given-Finishes o _ (λ name.
        attempting-Finishes "Fail to delete queue" (l.delete_queue name) _
          (answers.delete_queue name) (said-Finishes (text "done"))))

    list_queue-Ready : Ready (some (cli_list_queue l p))
    unfolding cli_list_queue
    list_queue-Ready args = branch-Finishes (ltb 1 (length args)) _ _ refuse-Finishes (
        parsed-Finishes _ (p.only_help args) (λ _.
          attempting-Finishes "Fail to list queue" l.list_queue _ answers.list_queue
            (λ out s. print_lines-Finishes out _)))

    rename-Ready : Ready (some (cli_rename l p))
    unfolding cli_rename
    rename-Ready = with_options-Finishes p.rename _ (λ o. given-Finishes o.source _ (λ source.
        given-Finishes o.target _ (λ target.
          attempting-Finishes "Fail to rename queue" (l.rename_queue source target) _
            (answers.rename_queue source target) (said-Finishes (text "done")))))

    pub list_command-Ready : (name : Str) → Ready (list_command l p name)
    unfolding list_command
    list_command-Ready name = branch-Ready (str_eq name (codes "create")) _ _ create-Ready (
        branch-Ready (str_eq name (codes "delete")) _ _ delete-Ready (
          branch-Ready (str_eq name (codes "list")) _ _ list_queue-Ready
            (branch-Ready (str_eq name (codes "rename")) _ _ rename-Ready tt)))
