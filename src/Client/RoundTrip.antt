-- ===== src/Client/RoundTrip.antt =====
-- addTask and pendingDetails of a queue over gRPC, one after the other.
use simple_task_queue.Common.{
  ℕ, ◌+◌, ◌<◌, ◌≡◌, ◌⊎◌, inl, inr, refl, sym, ap, ◌∙◌, subst, true, Option, none, some, Str, ℤ, pos,
  length, String, to_int32, arith, some_inj,
}
use simple_task_queue.Args.RoundTrip.{IsRepresentable}
use simple_task_queue.Task.{Task}
use simple_task_queue.ErrMsg.{os_error, status_internal, StatusCode, to_grpc_status}
use simple_task_queue.Exec.{Result, ok, err, hang, Ends}
use simple_task_queue.Sqlite.{Sqlite}
use simple_task_queue.Process.{Process}
use simple_task_queue.Queue.{Queue, add_task}
use simple_task_queue.Queue.Contract.{Contract}
use simple_task_queue.Queue.AddLaws.{Added, NotAdded}
use simple_task_queue.Queue.Valid.{IsValid}
use simple_task_queue.Queue.Methods.{tables, Leaves, add_task-Leaves}
use simple_task_queue.QueueList.{QueueList, get_queue}
use simple_task_queue.Server.{Reply, replied, refused, stuck, reply}
use simple_task_queue.Server.Laws.{Answers}
use simple_task_queue.Server.QueueImpl.{
  serve_add_task, serve_pending_details, TaskDetailsRes, on_queue, at_queue, answered, put_queue,
  requested_task,
}
use simple_task_queue.Server.RoundTrip.{shown, details_req, serve_pending_details-serve_add_task}
use simple_task_queue.Client.{
  Channel, Status, arrived, failed, checked, add_task_rpc, pending_details_rpc, AddTaskReq,
}
use simple_task_queue.Client.Carries.{Carries, Carried, serve}
use simple_task_queue.Client.GrpcQueue.{
  GrpcQueue, grpc_add_task, grpc_pending_details, build_task, add_task_req, task_req,
}

-- An AddTask that is refused is refused with INTERNAL.
refused-internal :
    (msg : String) (r : Result ℤ) (c : StatusCode) (m : String)
    → (r ≡ hang → ⊥)
    → ((e : ℕ) → r ≡ err e → e ≡ os_error)
    → ◌≡◌ {A = Reply ℤ} (reply msg to_int32 r) (refused c m)
    → c ≡ status_internal
unfolding reply to_grpc_status
refused-internal msg (ok id) c m ends code h = absurd (cc h)
refused-internal msg (err e) c m ends code h = cc (h, ap to_grpc_status (code e refl))
refused-internal msg hang c m ends code h = absurd (ends refl)

-- What a call that gives a value has got.
checked-ok :
    {N A B : Type 0} (f : A → B) (s : Status A × N) (b : B) (n : N)
    → checked f s ≡ (ok b, n)
    → (a : A) × (s ≡ (arrived a, n)) × (b ≡ f a)
unfolding checked
checked-ok f (arrived a, n') b n h = (a, cc h, cc h)
checked-ok f (failed d, n') b n h = absurd (cc h)

module _ {S : Sqlite} {P : Process} where
  module _ {N : Type 0} (NetFault Fault : Type 0) (view : N → QueueList S P) where
    -- What the client makes of an answer that says only INTERNAL when it refuses.
    answered-Ends :
        (l : QueueList S P) (out : Task) (res : TaskDetailsRes)
        (r : Reply TaskDetailsRes × QueueList S P) (s : Status TaskDetailsRes × N)
        → Answers (λ c. (c ≡ status_internal) × Fault) (λ o. o ≡ res) r
        → Carried NetFault view l r s
        → Ends
            (λ c _. (c ≡ os_error) × (NetFault ⊎ Fault))
            (λ t _. t ≡ build_task out res)
            (checked (build_task out) s)
    unfolding checked
    answered-Ends l out res (replied a, l') (arrived b, n) h c = ap (build_task out) (c.0 ∙ h)
    answered-Ends l out res (replied a, l') (failed d, n) h c = (refl, inl c.0)
    answered-Ends l out res (refused k m, l') (arrived b, n) h c = absurd (cc (h.0, c.0))
    answered-Ends l out res (refused k m, l') (failed d, n) h c = (refl, inr h.1)
    answered-Ends l out res (stuck, l') s h c = absurd h

    arrived-replied :
        {A : Type 0} (l : QueueList S P) (r : Reply A × QueueList S P) (b : A) (n : N)
        → Carried NetFault view l r (arrived b, n)
        → ((c : StatusCode) (m : String) → r.0 ≡ refused c m → c ≡ status_internal)
        → r ≡ (replied b, view n)
    arrived-replied l (replied a, l') b n c k = cc (c.0, c.1)
    arrived-replied l (refused code m, l') b n c k = absurd (cc (c.0, k code m refl))
    arrived-replied l (stuck, l') b n c k = absurd c

  at-reply :
      {A : Type 0} (name : Str) (f : Queue S P → Reply A × Queue S P) (l : QueueList S P)
      (q : Queue S P) (o : Option (Queue S P))
      → o ≡ some q
      → (at_queue name f l o).0 ≡ (f q).0
  unfolding at_queue put_queue
  at-reply name f l q none e = absurd (cc e)
  at-reply name f l q (some q') e = ap (λ x. (f x).0) (some_inj e)

  module _ {Fault : Type 0} (K : Contract S Fault) where
    add-codes :
        (task : Task) (q : Queue S P) (r : Result ℤ × Queue S P)
        → Leaves K q (NotAdded Fault (tables K q)) (Added task (tables K q)) r
        → (r.0 ≡ hang → ⊥) × ((e : ℕ) → r.0 ≡ err e → e ≡ os_error)
    add-codes task q (ok id, q') h = ((λ e. cc e), (λ e g. cc g))
    add-codes task q (err c, q') h = ((λ e. cc e), (λ e g. cc (g, h.0.0)))
    add-codes task q (hang, q') h = ((λ e. h), (λ e g. absurd h))

    served :
        (req : AddTaskReq) (l : QueueList S P) (q : Queue S P)
        → get_queue req.name l ≡ some q
        → length (tables K q).last_id < S.rounds
        → (c : StatusCode) (m : String) → (serve_add_task (some req) true l).0 ≡ refused c m
        → c ≡ status_internal
    unfolding serve_add_task on_queue answered
    served req l q known rounds c m h =
        let task = requested_task req in
        let (ends, code) = add-codes task q (add_task task q) (add_task-Leaves K task q rounds) in
        refused-internal "Fail to add task" (add_task task q).0 c m ends code
          (sym (at-reply req.name _ l q (get_queue req.name l) known) ∙ h)

    module _ {C : Channel} {blank : Queue S P} {process : Option P.State} {NetFault : Type 0}
        (W : Carries C blank process NetFault) (g : GrpcQueue C) where
      -- If addTask over a channel gives OK at a name that has a queue, the task has got the next ID,
      -- and pendingDetails of this ID over the channel gives the task back with the exit code 0 and
      -- the isSuccess of the task that it writes to, or OS_ERROR where the channel or SQLite fails.
      -- This is for arguments that survive the text column, well-formed tables, and more rounds of the
      -- loops than pending tasks and two.
      pub grpc_pending_details-grpc_add_task :
          (task added out : Task) (n n' : C.Net) (q : Queue S P) (k : ℕ)
          → get_queue g.queue_name (W.view n) ≡ some q
          → length (tables K q).pending + 2 < S.rounds
          → IsValid k (tables K q)
          → IsRepresentable task.args
          → grpc_add_task g task n ≡ (ok added, n')
          → (added ≡ record task { id = pos k })
            × Ends
                (λ c _. (c ≡ os_error) × (NetFault ⊎ Fault))
                (λ t _. t ≡ record added { exit_code = pos 0; is_success = out.is_success })
                (grpc_pending_details g added.id out n')
      unfolding grpc_add_task grpc_pending_details serve build_task add_task_req
      grpc_pending_details-grpc_add_task task added out n n' q k known rounds valid args made =
          let req = add_task_req g.queue_name task in
          let (id, got, is_added) = checked-ok _ (C.call add_task_rpc g.stub req n) added n' made in
          let done : serve_add_task (some req) true (W.view n) ≡ (replied id, W.view n') =
            arrived-replied NetFault Fault W.view (W.view n)
              (serve_add_task (some req) true (W.view n)) id n'
              (subst
                (Carried NetFault W.view (W.view n) (serve_add_task (some req) true (W.view n))) got
                (W.call_carries add_task_rpc g.stub req n))
              (served req (W.view n) q known (omega (arith, ap length valid.next))) in
          let (is_next, read) =
            serve_pending_details-serve_add_task K req (W.view n) (W.view n') q k id known rounds
              valid args done in
          (
            is_added ∙ ap (λ i. record task { id = i }) is_next,
            subst
                (λ (a : Task).
                  Ends (λ c _. (c ≡ os_error) × (NetFault ⊎ Fault))
                    (λ t _. t ≡ record a { exit_code = pos 0; is_success = out.is_success })
                    (grpc_pending_details g a.id out n'))
                (sym is_added)
                (answered-Ends NetFault Fault W.view (W.view n') out (shown req id)
                  (serve_pending_details (some (details_req req id)) true (W.view n'))
                  (C.call pending_details_rpc g.stub (task_req g.queue_name id) n') read
                  (W.call_carries pending_details_rpc g.stub (task_req g.queue_name id) n')),
          )
