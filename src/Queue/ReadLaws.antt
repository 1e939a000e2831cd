-- ===== src/Queue/ReadLaws.antt =====
-- What the reading functions of Queue/Tables return, under the contract.
use simple_task_queue.Common.{
  ℕ, suc, ◌<◌, ◌≡◌, refl, sym, ap, ◌∙◌, ◌≢◌, inl, inr, List, [], ◌∷◌, ◌++◌, ℤ, arith, length, Perm,
  length-perm, append_assoc, append-nil,
}
use simple_task_queue.ErrMsg.{os_error}
use simple_task_queue.Exec.{Result, ok, err, Ends, Ends-mono, ok_inj}
use simple_task_queue.Sqlite.{Sqlite, Token, Row, fetch, Value}
use simple_task_queue.Queue.Tables.{list_id_in_table, ids_sql, push_id}
use simple_task_queue.Queue.Contract.{
  Contract, Entry, Table, table_name, entries, ids, ids_of, AllShowId, Query, IsRead, Answer,
  sql_of,
}
use simple_task_queue.Queue.Statements.{Meets, fold_rows, finally-Ends, Failed}
use simple_task_queue.Queue.Fetch.{fetch-Ends, Fetched, NotFetched}
use simple_task_queue.Queue.TableLaws.{FailsWith}

push_id-fold :
    (out ns : List ℤ) (rows : List Row)
    → AllShowId rows ns
    → fold_rows push_id out rows ≡ ok (out ++ ns)
push_id-fold out [] [] h = ap ok (sym (append-nil out))
push_id-fold out (n ∷ ns) [] h = absurd h
push_id-fold out [] (r ∷ rows) h = absurd h
push_id-fold out (n ∷ ns) (r ∷ rows) h =
    push_id-fold (out ++ r.column_int 0 ∷ []) ns rows h.1
    ∙ ap ok (append_assoc out (r.column_int 0 ∷ []) ns)
    ∙ ap (λ m. ok (out ++ m ∷ ns)) h.0

pub length-AllShowId : (ns : List ℤ) (rows : List Row) → AllShowId rows ns → length rows ≡ length ns
length-AllShowId [] [] h = refl
length-AllShowId (n ∷ ns) [] h = absurd h
length-AllShowId [] (r ∷ rows) h = absurd h
length-AllShowId (n ∷ ns) (r ∷ rows) h = ap suc (length-AllShowId ns rows h.1)

length-ids : (es : List Entry) → length (ids es) ≡ length es
length-ids [] = refl
length-ids (e ∷ es) = ap suc (length-ids es)

-- A body that always goes on.
abbrev GoesOn : {A : Type 0} → (A → Row → Result A) → Type 0
GoesOn {A} body = (b : A) (w : Row) → (b' : A) × (body b w ≡ ok b')

fold_rows-ne-err :
    {A : Type 0} (body : A → Row → Result A) (a : A) (rows : List Row) (c : ℕ)
    → GoesOn body
    → fold_rows body a rows ≢ err c
fold_rows-ne-err body a [] c on h = cc
fold_rows-ne-err body a (r ∷ rows) c on h =
    let (a', e) = on a r in fold_rows-ne-err body a' rows c on (rw (e, fold_rows) at h)

module _ {S : Sqlite} {Fault : Type 0} (K : Contract S Fault) where
  open K use {view}

  -- fetch with a body that goes on fails with its code alone.
  pub fetch_all-Ends :
      {A : Type 0} (q : Query) (vs : List Value) (body : A → Row → Result A) (code : ℕ) (a : A)
      (t : Token S)
      → IsRead q
      → GoesOn body
      → ((rows : List Row) → Answer q vs (view t.db) rows → length rows < S.rounds)
      → 0 < S.rounds
      → Ends
          (Failed K code (view t.db))
          (Fetched K body a q vs (view t.db))
          (fetch (sql_of q) vs body code a t)
  fetch_all-Ends q vs body code a t is_read on enough pos =
      Ends-mono (NotFetched K body a q vs code (view t.db)) (Failed K code (view t.db))
        (Fetched K body a q vs (view t.db)) (Fetched K body a q vs (view t.db))
        (fetch (sql_of q) vs body code a t)
        (fetch-Ends K q vs body code a t is_read (λ b w h. let (b', e) = on b w in cc) enough pos)
        (λ c t' h. elim h.0 [
          | inl e ↦ (e.0, h.1, e.1)
          | inr (rows, _, e) ↦ absurd (fold_rows-ne-err body a rows c on e)
        ])
        (λ a' t' h. h)

  -- listIDInTable gives the IDs in the table, each as often as it stands there, or says OS_ERROR
  -- where SQLite fails; it changes nothing. The loop has more rounds than the table has rows.
  list_id_in_table-Meets :
      (tb : Table) (t : Token S)
      → length (entries tb (view t.db)) < S.rounds
      → Meets K
          (FailsWith os_error Fault (view t.db))
          (λ out w. Perm out (ids (entries tb (view t.db))) × (w ≡ view t.db))
          (list_id_in_table (table_name tb) t)
  unfolding list_id_in_table
  list_id_in_table-Meets tb t h =
      finally-Ends K (FailsWith os_error Fault (view t.db))
        (λ out w. Perm out (ids (entries tb (view t.db))) × (w ≡ view t.db))
        (fetch (ids_sql (table_name tb)) [] push_id os_error []) t
        (Ends-mono (Failed K os_error (view t.db))
          (λ c t'. FailsWith os_error Fault (view t.db) c (view t'.db))
          (Fetched K push_id [] (ids_of tb) [] (view t.db))
          (λ out t'. Perm out (ids (entries tb (view t.db))) × (view t'.db ≡ view t.db)) _
          (fetch_all-Ends (ids_of tb) [] push_id os_error [] t tt
            (λ b w. (b ++ w.column_int 0 ∷ [], refl))
            (λ rows (ns, p, same). omega (
              arith,
              length-AllShowId ns rows same,
              length-perm p,
              length-ids (entries tb (view t.db)),
            ))
            (omega arith))
          (λ c t' f. f)
          (λ out t' (rows, (ns, p, same), e, keeps).
            (rw (ok_inj (sym e ∙ push_id-fold [] ns rows same)) p, keeps)))
