-- ===== src/Server/ListLaws.antt =====
-- The handlers of the service QueueList, one after the other.
use simple_task_queue.Common.{
  ◌≡◌, refl, ap, ◌∙◌, subst, Bool, true, false, Option, none, some, Str, str_eq, str_eq_refl,
  is_empty, if◌then◌else◌, ◌||◌, String,
}
use simple_task_queue.ErrMsg.{status_not_found}
use simple_task_queue.Exec.{Result, ok, err, hang, Ends}
use simple_task_queue.Sqlite.{Sqlite}
use simple_task_queue.Process.{Process}
use simple_task_queue.Queue.{Queue}
use simple_task_queue.QueueList.{QueueList, get_queue, create_queue, rename_queue, delete_queue}
use simple_task_queue.QueueList.Laws.{
  IsSound, rename_queue-Renamed, Renamed, delete_queue-get_queue,
}
use simple_task_queue.QueueList.Create.{CreateEnds, create_queue-Created}
use simple_task_queue.Server.{Reply, replied, refused, reply}
use simple_task_queue.Server.QueueImpl.{QueueReq}
use simple_task_queue.Server.QueueListImpl.{
  told, serve_create, serve_rename, serve_delete, serve_get_queue, had, RenameQueueReq,
}

module _ {S : Sqlite} {P : Process} where
  -- A call that was answered with OK has succeeded.
  told-replied :
      (msg : String) (r : Result (Unit {0}) × QueueList S P) (x : Unit {0}) (l : QueueList S P)
      → told msg r ≡ (replied x, l)
      → r ≡ (ok x, l)
  unfolding told reply
  told-replied msg (ok a, l') x l h = cc h
  told-replied msg (err c, l') x l h = absurd (cc h)
  told-replied msg (hang, l') x l h = absurd (cc h)

  -- Behind a test that refuses.
  not_refused :
      (b : Bool) (r r' s : Reply (Unit {0}) × QueueList S P)
      → (if b then r else r') ≡ s
      → (r ≡ s → ⊥)
      → r' ≡ s
  not_refused true r r' s h never = absurd (never h)
  not_refused false r r' s h never = h

  get-had :
      (req : QueueReq) (l : QueueList S P) (o : Option (Queue S P))
      → get_queue req.name l ≡ o
      → serve_get_queue (some req) l ≡ had l o
  unfolding serve_get_queue
  get-had req l o h = ap (had l) h

  -- In a list without a name twice, after a Delete that was answered with OK GetQueue of the name
  -- says NOT_FOUND.
  serve_get_queue-serve_delete :
      (req : QueueReq) (l l' : QueueList S P)
      → IsSound l
      → serve_delete (some req) l ≡ (replied tt, l')
      → serve_get_queue (some req) l' ≡ (refused status_not_found "No such queue", l')
  unfolding serve_delete had
  serve_get_queue-serve_delete req l l' sound h =
      let done : delete_queue req.name l ≡ (ok tt, l') =
        told-replied "Fail to delete" (delete_queue req.name l) tt l' (
          not_refused (is_empty req.name) _ (told "Fail to delete" (delete_queue req.name l)) _ h
            (λ e. cc e)) in
      let gone =
        (subst
            (Ends _ (λ _ l2.
              ((k : Str) → get_queue k l2 ≡ (if str_eq req.name k then none else get_queue k l))
              × IsSound l2))
            done (delete_queue-get_queue req.name l sound)).0
          req.name in
      get-had req l' none (gone ∙ rw (str_eq_refl req.name) refl)

  -- In a list without a name twice, after a Create that was answered with OK GetQueue of the name
  -- is answered with OK.
  serve_get_queue-serve_create :
      (blank : Queue S P) (process : Option P.State) (req : QueueReq) (l l' : QueueList S P)
      → IsSound l
      → serve_create blank process (some req) l ≡ (replied tt, l')
      → serve_get_queue (some req) l' ≡ (replied tt, l')
  unfolding serve_create had
  serve_get_queue-serve_create blank process req l l' sound h =
      let made : create_queue blank process req.name l ≡ (ok tt, l') =
        told-replied "Fail to create queue" (create_queue blank process req.name l) tt l' (
          not_refused (is_empty req.name) _
            (told "Fail to create queue" (create_queue blank process req.name l)) _ h
            (λ e. cc e)) in
      let ((q, p, f, g, is_there), sound') =
        subst (CreateEnds req.name process l) made
          (create_queue-Created blank process req.name l sound) in
      get-had req l' (some q) (is_there req.name ∙ rw (str_eq_refl req.name) refl)

  -- In a list without a name twice, after a Rename that was answered with OK GetQueue of the old
  -- name says NOT_FOUND, also if the two names are the same.
  pub serve_get_queue-serve_rename :
      (req : RenameQueueReq) (l l' : QueueList S P)
      → IsSound l
      → serve_rename (some req) l ≡ (replied tt, l')
      → serve_get_queue (some (record { name = req.old_name })) l'
        ≡ (refused status_not_found "No such queue", l')
  unfolding serve_rename had
  serve_get_queue-serve_rename req l l' sound h =
      let done : rename_queue req.old_name req.new_name l ≡ (ok tt, l') =
        told-replied "Fail to rename" (rename_queue req.old_name req.new_name l) tt l' (
          not_refused (is_empty req.old_name || is_empty req.new_name) _
            (told "Fail to rename" (rename_queue req.old_name req.new_name l)) _ h (λ e. cc e)) in
      let (gone, sound') =
        subst (Ends _ (λ _ l2. Renamed req.old_name req.new_name l l2 × IsSound l2)) done
          (rename_queue-Renamed req.old_name req.new_name l sound) in
      get-had (record { name = req.old_name }) l' none
        (gone req.old_name ∙ rw (str_eq_refl req.old_name) refl)
