-- ===== src/Server/RoundTrip.antt =====
-- AddTask and PendingDetails of the service Queue, one after the other.
use simple_task_queue.Common.{
  ℕ, ◌+◌, ◌<◌, ◌≡◌, refl, sym, ap, ◌∙◌, subst, true, Option, none, some, Str, ℤ, pos, to_int32,
  to_int32_id, length, assign, lookup-assign, some_inj, arith,
}
use simple_task_queue.Args.RoundTrip.{IsRepresentable}
use simple_task_queue.Task.{Task}
use simple_task_queue.ErrMsg.{status_internal, to_grpc_status, os_error}
use simple_task_queue.Exec.{Result, ok, err, hang}
use simple_task_queue.Sqlite.{Sqlite}
use simple_task_queue.Process.{Process}
use simple_task_queue.Queue.{Queue, add_task, pending_details}
use simple_task_queue.Queue.Contract.{Contract}
use simple_task_queue.Queue.Valid.{IsValid}
use simple_task_queue.Queue.Methods.{tables, Leaves, pending_details-add_task, added}
use simple_task_queue.QueueList.{QueueList, get_queue}
use simple_task_queue.Server.{Reply, replied, reply}
use simple_task_queue.Server.Laws.{Answers}
use simple_task_queue.Server.QueueImpl.{
  on_queue, at_queue, put_queue, answered, serve_add_task, serve_pending_details, AddTaskReq,
  TaskDetailsReq, TaskDetailsRes, requested_task, build_task_details_res,
}

-- What a client reads back of a request.
abbrev pub shown : AddTaskReq → ℤ → TaskDetailsRes
shown req id = record {
  work_dir = req.work_dir;
  exec_name = req.exec_name;
  args = req.args;
  exit_code = pos 0;
  id = id;
}

abbrev pub details_req : AddTaskReq → ℤ → TaskDetailsReq
details_req req id = record { name = req.name; id = id }

internal : to_grpc_status os_error ≡ status_internal
unfolding to_grpc_status
internal = refl

shown-task :
    (req : AddTaskReq) (n : ℕ)
    → n < 2147483648
    → build_task_details_res (record (requested_task req) { id = pos n }) ≡ shown req (pos n)
unfolding build_task_details_res requested_task
shown-task req n h = rw (to_int32_id (pos n) h, to_int32_id (pos 0) (omega arith)) refl

replied_inj :
    {A B : Type 0} {a b : A} {x y : B}
    → ◌≡◌ {A = Reply A × B} (replied a, x) (replied b, y)
    → (a ≡ b) × (x ≡ y)
replied_inj h = (cc, cc)

module _ {S : Sqlite} {P : Process} {Fault : Type 0} (K : Contract S Fault) where
  -- The end of a call of pendingDetails, as an answer.
  answered-Answers :
      (name : Str) (l : QueueList S P) (q : Queue S P) (task : Task) (out : TaskDetailsRes)
      (r : Result Task × Queue S P)
      → build_task_details_res task ≡ out
      → Leaves K q (λ c w. (c ≡ os_error) × Fault) (λ t w. t ≡ task) r
      → Answers
          (λ c. (c ≡ status_internal) × Fault)
          (λ o. o ≡ out)
          (put_queue name l (answered "Fail to get pending detailes" build_task_details_res r))
  unfolding put_queue answered reply
  answered-Answers name l q task out (ok t, q') e h = ap build_task_details_res h.0 ∙ e
  answered-Answers name l q task out (err c, q') e h = (ap to_grpc_status h.0.0 ∙ internal, h.0.1)
  answered-Answers name l q task out (hang, q') e h = h

  -- PendingDetails at a name whose queue is known.
  at-Answers :
      (req : TaskDetailsReq) (l : QueueList S P) (q : Queue S P) (o : Option (Queue S P))
      (task : Task) (out : TaskDetailsRes)
      → o ≡ some q
      → build_task_details_res task ≡ out
      → Leaves K q (λ c w. (c ≡ os_error) × Fault) (λ t w. t ≡ task) (pending_details req.id q)
      → Answers
          (λ c. (c ≡ status_internal) × Fault)
          (λ o. o ≡ out)
          (at_queue req.name
            (λ q.
              answered "Fail to get pending detailes" build_task_details_res
                (pending_details req.id q))
            l
            o)
  unfolding at_queue
  at-Answers req l q none task out known e h = absurd (cc known)
  at-Answers req l q (some q') task out known e h =
      rw (some_inj known) (answered-Answers req.name l q task out (pending_details req.id q) e h)

  details-added :
      (req : AddTaskReq) (l : QueueList S P) (q q' : Queue S P) (n : ℕ) (a : ℤ)
      → length (tables K q).pending + 2 < S.rounds
      → IsValid n (tables K q)
      → IsRepresentable req.args
      → add_task (requested_task req) q ≡ (ok a, q')
      → (to_int32 a ≡ pos n)
        × Answers
            (λ c. (c ≡ status_internal) × Fault)
            (λ out. out ≡ shown req (pos n))
            (serve_pending_details
              (some (details_req req (pos n)))
              true
              (record l { queues = assign req.name q' l.queues }))
  unfolding serve_pending_details on_queue get_queue requested_task
  details-added req l q q' n a rounds valid args runs =
      let (number, new, same) =
        added K (requested_task req) q q' n a (omega (arith, rounds)) valid runs in
      let read : Leaves K q' (λ c w. (c ≡ os_error) × Fault)
          (λ out w. out ≡ record (requested_task req) { id = pos n }) (pending_details (pos n) q') =
        pending_details-add_task K (requested_task req) q q' n (pos n) rounds valid args
          (omega arith) (subst (λ z. add_task (requested_task req) q ≡ (ok z, q')) number runs) in
      (
        ap to_int32 number ∙ to_int32_id (pos n) valid.fits,
        at-Answers (details_req req (pos n)) (record l { queues = assign req.name q' l.queues }) q'
            _ (record (requested_task req) { id = pos n }) (shown req (pos n))
            (lookup-assign req.name q' l.queues) (shown-task req n valid.fits) read,
      )

  -- AddTask and PendingDetails, given what the first made of the queue.
  details-after :
      (req : AddTaskReq) (l : QueueList S P) (q : Queue S P) (n : ℕ) (r : Result ℤ × Queue S P)
      → length (tables K q).pending + 2 < S.rounds
      → IsValid n (tables K q)
      → IsRepresentable req.args
      → add_task (requested_task req) q ≡ r
      → (id : ℤ) (l' : QueueList S P)
      → put_queue req.name l (answered "Fail to add task" to_int32 r) ≡ (replied id, l')
      → (id ≡ pos n)
        × Answers
            (λ c. (c ≡ status_internal) × Fault)
            (λ out. out ≡ shown req id)
            (serve_pending_details (some (details_req req id)) true l')
  unfolding put_queue answered reply
  details-after req l q n (ok a, q') rounds valid args runs id l' made =
      let (same, list) = replied_inj made in
      let (number, read) = details-added req l q q' n a rounds valid args runs in
      let is_n : id ≡ pos n = sym same ∙ number in (is_n, rw (sym list, is_n) read)
  details-after req l q n (err c, q') rounds valid args runs id l' made = absurd (cc made)
  details-after req l q n (hang, q') rounds valid args runs id l' made = absurd (cc made)

  added_at :
      (req : AddTaskReq) (l l' : QueueList S P) (q : Queue S P) (o : Option (Queue S P)) (id : ℤ)
      → o ≡ some q
      → at_queue req.name
          (λ q. answered "Fail to add task" to_int32 (add_task (requested_task req) q))
          l
          o
        ≡ (replied id, l')
      → put_queue req.name l
          (answered "Fail to add task" to_int32 (add_task (requested_task req) q))
        ≡ (replied id, l')
  unfolding at_queue
  added_at req l l' q none id known made = absurd (cc known)
  added_at req l l' q (some q') id known made =
      subst
        (λ q.
          put_queue req.name l
            (answered "Fail to add task" to_int32 (add_task (requested_task req) q))
          ≡ (replied id, l'))
        (some_inj known) made

  -- If AddTask at a name that has a queue replies with an ID, it is the next one, and
  -- PendingDetails of this ID gives the request back with the exit code 0, or says INTERNAL where
  -- SQLite fails. This is for arguments that survive the text column, well-formed tables, and more
  -- rounds of the loops than pending tasks and two.
  pub serve_pending_details-serve_add_task :
      (req : AddTaskReq) (l l' : QueueList S P) (q : Queue S P) (n : ℕ) (id : ℤ)
      → get_queue req.name l ≡ some q
      → length (tables K q).pending + 2 < S.rounds
      → IsValid n (tables K q)
      → IsRepresentable req.args
      → serve_add_task (some req) true l ≡ (replied id, l')
      → (id ≡ pos n)
        × Answers
            (λ c. (c ≡ status_internal) × Fault)
            (λ out. out ≡ shown req id)
            (serve_pending_details (some (details_req req id)) true l')
  unfolding serve_add_task on_queue
  serve_pending_details-serve_add_task req l l' q n id known rounds valid args made =
      details-after req l q n (add_task (requested_task req) q) rounds valid args refl id l'
        (added_at req l l' q (get_queue req.name l) id known made)
