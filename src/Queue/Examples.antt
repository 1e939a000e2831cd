-- ===== src/Queue/Examples.antt =====
-- A queue in memory with two tasks, on which the lemmas about the queue are tried.
use simple_task_queue.Common.{
  ◌≡◌, ◌≢◌, ◌⊎◌, refl, some, [], ◌∷◌, codes, IsInt32, none, arith, ℤ, pos, true, false, to_int32,
  none, List,
}
use simple_task_queue.Args.RoundTrip.{IsRepresentable, no_comma-IsRepresentable}
use simple_task_queue.Task.{Task, empty_task}
use simple_task_queue.Exec.{Ends, ok, err}
use simple_task_queue.ErrMsg.{os_error, not_found, invalid_argument}
use simple_task_queue.Sqlite.{
  Token, finally, fetch, prepare, bind_all, fetch_loop, step, release, execute, bind,
}
use simple_task_queue.Process.{Process}
use simple_task_queue.Queue.{Queue, on_token, add_task, remove_task, pending_details}
use simple_task_queue.Queue.MainLoop.{main_loop}
use simple_task_queue.Queue.Tables.{add_task_to_table, get_id, task_details}
use simple_task_queue.Queue.Contract.{Store, Entry, pending_table, without_id}
use simple_task_queue.Queue.Statements.{Meets}
use simple_task_queue.Queue.TableLaws.{entry_of_task}
use simple_task_queue.Queue.DetailLaws.{hits, NoDetails, HasDetails, task_details-Meets}
use simple_task_queue.Queue.IdLaws.{NoId, HasId, get_id-Meets}
use simple_task_queue.Queue.AddLaws.{NotAdded, Added}
use simple_task_queue.Queue.Valid.{IsValid}
use simple_task_queue.Queue.Methods.{
  Leaves, add_task-Leaves, remove_task-Leaves, pending_details-add_task,
}
use simple_task_queue.Queue.Drain.{main_loop-Drained, Drained}
use simple_task_queue.Queue.Rounds.{Cooperates, stopped}
use simple_task_queue.Queue.Spec.{Spec, Change, adds, removes, next_round, spec_run, perform_all}
use simple_task_queue.Queue.Implements.{Implements}
use simple_task_queue.Queue.Refinement.{perform_all-Implements}
use simple_task_queue.Queue.Sample.{memory, memory_contract}

-- A process that ends at once, with the exit code 7.
abbrev pub instant : Process
instant = record {
  State = Unit {0};
  start = λ t s. (false, s);
  stop = λ s. s;
  is_running = λ s. (false, s);
  read_current_output = λ s. ([], s);
  exit_code = λ s. (some (pos 7), s);
}

instant-Cooperates : Cooperates instant 1 (λ s. Unit {0}) (λ t. pos 7)
instant-Cooperates = record { runs = λ t s h. (tt, tt, tt, refl, stopped refl, refl, tt) }

abbrev pub ls : Task
ls = record empty_task { exec_name = codes "/bin/ls"; args = codes "-l" ∷ []; work_dir = codes "/" }

abbrev pub stored : ℤ → Entry
stored id = record (entry_of_task ls) { id = id }

pub ls_args : IsRepresentable ls.args
ls_args = no_comma-IsRepresentable (codes "-l") [] (((λ e. cc e), ((λ e. cc e), tt)), tt)

ls_code : IsInt32 ls.exit_code
ls_code = omega arith

-- Two tasks are pending, one is done, and the next ID is 3.
abbrev two_pending : Store
two_pending = record {
  pending = stored (pos 1) ∷ stored (pos 2) ∷ [];
  done = stored (pos 0) ∷ [];
  last_id = pos 3 ∷ [];
}

pub two_pending-IsValid : IsValid 3 two_pending
two_pending-IsValid = record {
  next = refl;
  fits = omega arith;
  pending_below = (omega arith, (omega arith, tt));
  done_below = (omega arith, tt);
  pending_distinct = (refl, (refl, tt));
  done_distinct = (refl, tt);
  apart = (refl, (refl, tt));
}

abbrev pub token : Token memory
token = record { db = two_pending; is_open = true; stmt = none }

abbrev pub started : Queue memory instant
started = record {
  token = token;
  process = tt;
  current_task = empty_task;
  is_running = true;
  start_flag = true;
}

main_loop-Drained_example :
    Ends
      (λ _ _. ⊥)
      (λ _. Drained memory_contract 1 (λ s. Unit {0}) (λ t. pos 7) instant-Cooperates started)
      (main_loop 1 4 started)
main_loop-Drained_example =
    main_loop-Drained memory_contract 1 (λ s. Unit {0}) (λ t. pos 7) instant-Cooperates 4 3
      (stored (pos 1) ∷ stored (pos 2) ∷ []) started two_pending-IsValid tt refl refl (omega arith)

add_task-Leaves_example :
    Leaves memory_contract started
      (NotAdded ⊥ two_pending)
      (Added ls two_pending)
      (add_task ls started)
add_task-Leaves_example = add_task-Leaves memory_contract ls started (omega arith)

remove_task-Leaves_example :
    ((pos 1 ≡ started.current_task.id)
      × (remove_task (pos 1) started ≡ (err invalid_argument, started)))
    ⊎ ((pos 1 ≢ started.current_task.id)
        × Leaves memory_contract started
            (λ c w. ((c ≡ os_error) ⊎ (c ≡ not_found)) × (w ≡ two_pending) × ⊥)
            (λ _ w.
              w
              ≡ record two_pending { pending = without_id (to_int32 (pos 1)) two_pending.pending })
            (remove_task (pos 1) started))
remove_task-Leaves_example = remove_task-Leaves memory_contract (pos 1) started

-- The queue after addTask of `ls`.
abbrev pub with_third : Queue memory instant
with_third = (add_task ls started).1

pub added_third : add_task ls started ≡ (ok (pos 3), with_third)
unfolding add_task on_token get_id finally fetch prepare bind_all fetch_loop step release execute
    bind add_task_to_table to_int32
added_third = refl

pending_details-add_task_example :
    Leaves memory_contract with_third
      (λ c w. (c ≡ os_error) × ⊥)
      (λ out w. out ≡ record ls { id = pos 3 })
      (pending_details (pos 3) with_third)
pending_details-add_task_example =
    pending_details-add_task memory_contract ls started with_third 3 (pos 3) (omega arith)
      two_pending-IsValid ls_args ls_code added_third

task_details-Meets_example :
    Meets memory_contract
      (NoDetails ⊥ (hits pending_table (pos 1) two_pending) two_pending)
      (HasDetails (hits pending_table (pos 1) two_pending) two_pending)
      (task_details "pending" (pos 1) token)
task_details-Meets_example =
    task_details-Meets memory_contract pending_table (pos 1) token (omega arith)

get_id-Meets_example : Meets memory_contract (NoId ⊥ two_pending) (HasId two_pending) (get_id token)
get_id-Meets_example = get_id-Meets memory_contract token (omega arith)

abbrev two_pending_spec : Spec
two_pending_spec = record { pending = two_pending.pending; done = two_pending.done; next = 3 }

-- A third task is added, the second is removed, and two rounds run the others.
abbrev changes_list : List Change
changes_list = adds ls ∷ removes (pos 2) ∷ next_round ∷ next_round ∷ []

perform_all-Implements_example :
    Implements memory_contract 1
      (λ s. Unit {0})
      (λ t. pos 7)
      instant-Cooperates
      (spec_run (λ t. pos 7) changes_list two_pending_spec)
      (perform_all 1 changes_list started)
perform_all-Implements_example =
    perform_all-Implements memory_contract 1 (λ s. Unit {0}) (λ t. pos 7) instant-Cooperates
      changes_list two_pending_spec started (omega arith) (omega arith)
      (refl, two_pending-IsValid, tt, refl)
