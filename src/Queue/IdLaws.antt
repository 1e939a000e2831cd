-- ===== src/Queue/IdLaws.antt =====
-- What getID returns and changes, under the contract.
use simple_task_queue.Common.{
  ℕ, suc, ◌+◌, ◌<◌, ◌≡◌, refl, sym, ap, ◌∙◌, ◌≢◌, ◌⊎◌, inl, inr, false, ◌==◌, List, [], ◌∷◌, ℤ, pos,
  int_eq, int_suc, to_int32, arith, length, if◌then◌else◌, subst,
}
use simple_task_queue.ErrMsg.{os_error, invalid_argument}
use simple_task_queue.Exec.{ok, Ends, Ends-mono, Ends-continue, require, pure, ok_inj, ◌>>◌}
use simple_task_queue.Sqlite.{Sqlite, Token, Row, int, Value, fetch, execute, release, finalized}
use simple_task_queue.Queue.Tables.{get_id, keep_id, last_id_sql, update_id_sql}
use simple_task_queue.Queue.Contract.{
  Contract, Store, AllShowId, effect, changes, silent, set_last_id, read_last_id, refuses,
}
use simple_task_queue.Queue.Statements.{
  Meets, fold_rows, finally-Ends, Failed, Refused, execute-Ends, finalized-view,
}
use simple_task_queue.Queue.Fetch.{Fetched}
use simple_task_queue.Queue.ReadLaws.{fetch_all-Ends, length-AllShowId}

abbrev last_int : ℤ → List ℤ → ℤ
last_int out [] = out
last_int out (n ∷ ns) = last_int n ns

keep_id-fold :
    (k : ℕ) (out : ℤ) (ns : List ℤ) (rows : List Row)
    → AllShowId rows ns
    → fold_rows keep_id (k, out) rows ≡ ok (k + length ns, last_int out ns)
keep_id-fold k out [] [] h = let e : k + 0 ≡ k = omega arith in rw e
keep_id-fold k out (n ∷ ns) [] h = absurd h
keep_id-fold k out [] (r ∷ rows) h = absurd h
keep_id-fold k out (n ∷ ns) (r ∷ rows) h =
    let count : suc k + length ns ≡ k + suc (length ns) = omega arith in
    ap (λ m. fold_rows keep_id (suc k, m) rows) h.0
    ∙ keep_id-fold (suc k) n ns rows h.1
    ∙ ap (λ m. ok (m, last_int n ns)) count

-- The number that is stored behind `n`; nothing is stored where `n` does not fit into an `int`.
abbrev pub next_id : ℤ → ℤ
next_id n = if int_eq n (to_int32 n) then to_int32 (int_suc n) else n

abbrev pub NoId : Type 0 → Store → ℕ → Store → Type 0
NoId Fault v c w =
    ((c ≡ os_error) × Fault ⊎ ((c ≡ invalid_argument) × (length v.last_id ≢ 1))) × (w ≡ v)

abbrev pub HasId : Store → ℤ → Store → Type 0
HasId v n w = (v.last_id ≡ n ∷ []) × (w ≡ record v { last_id = next_id n ∷ [] })

abbrev update_values : ℤ → List Value
update_values n = int (to_int32 (int_suc n)) ∷ int (to_int32 n) ∷ []

update_told :
    (n : ℤ) (v : Store) → v.last_id ≡ n ∷ [] → effect set_last_id (update_values n) v ≢ silent
update_told n v e h = ground arith

update_obeys :
    (n : ℤ) (v : Store) → v.last_id ≡ n ∷ [] → effect set_last_id (update_values n) v ≢ refuses
update_obeys n v e h = ground arith

update_changes :
    (n : ℤ) (v w : Store)
    → v.last_id ≡ n ∷ []
    → effect set_last_id (update_values n) v ≡ changes w
    → w ≡ record v { last_id = next_id n ∷ [] }
update_changes n v w e h = ground arith

module _ {S : Sqlite} {Fault : Type 0} (K : Contract S Fault) where
  open K use {view}

  update-Meets :
      (n : ℤ) (v : Store) (t : Token S)
      → v.last_id ≡ n ∷ []
      → view t.db ≡ v
      → Meets K
          (NoId Fault v)
          (HasId v)
          ((execute update_id_sql (update_values n) os_error os_error >> pure n) t)
  update-Meets n v t one same =
      Ends-continue {A = Unit {0}} (λ c t'. NoId Fault v c (view t'.db))
        (λ _ t'. effect set_last_id (update_values n) v ≡ changes (view t'.db))
        (λ m t'. HasId v m (view t'.db)) (λ _. pure n)
        (execute update_id_sql (update_values n) os_error os_error t)
        (Ends-mono {A = Unit {0}}
          (Refused K (effect set_last_id (update_values n) v) os_error os_error v)
          (λ c t'. NoId Fault v c (view t'.db))
          (λ _ t'. effect set_last_id (update_values n) v ≡ changes (view t'.db))
          (λ _ t'. effect set_last_id (update_values n) v ≡ changes (view t'.db))
          (execute update_id_sql (update_values n) os_error os_error t)
          (subst
            (λ u.
              Ends {A = Unit {0}}
                (Refused K (effect set_last_id (update_values n) u) os_error os_error u)
                (λ _ t'. effect set_last_id (update_values n) u ≡ changes (view t'.db))
                (execute update_id_sql (update_values n) os_error os_error t))
            same
            (execute-Ends K set_last_id (update_values n) os_error os_error t
              (rw same (update_told n v one))))
          (λ c t' f. (
            inl (
              elim f.0 [ inl e ↦ e | inr e ↦ e ],
              elim f.2 [ inl x ↦ x | inr e ↦ absurd (update_obeys n v one e) ],
            ),
            f.1,
          ))
          (λ _ _ e. e))
        (λ _ t' h. (one, update_changes n v (view t'.db) one h))

  -- What follows the loop, for the rows that it has counted.
  found_id-Meets :
      (ns : List ℤ) (v : Store) (t : Token S)
      → v.last_id ≡ ns
      → view t.db ≡ v
      → Meets K (NoId Fault v) (HasId v) (
          (require (length ns == 1) invalid_argument
              >> (release
                  >> (execute update_id_sql (update_values (last_int (pos 0) ns)) os_error os_error
                      >> pure (last_int (pos 0) ns))))
            t)
  unfolding release
  found_id-Meets [] v t e same = (inr (refl, (λ h. absurd (omega (arith, ap length e)))), same)
  found_id-Meets (n ∷ []) v t e same =
      update-Meets n v (finalized t.stmt t) e (finalized-view K t.stmt t ∙ same)
  found_id-Meets (n ∷ (m ∷ ns)) v t e same =
      let many : (suc (suc (length ns)) == 1) ≡ false = ground arith in
      rw many (inr (refl, (λ h. absurd (omega (arith, ap length e)))), same)

  -- getID gives the number that lastID holds and stores the next one; it says INVALID_ARGUMENT only
  -- where lastID has not one row; a failure changes nothing. The loop has more rounds than lastID
  -- has rows.
  pub get_id-Meets :
      (t : Token S)
      → length (view t.db).last_id < S.rounds
      → Meets K (NoId Fault (view t.db)) (HasId (view t.db)) (get_id t)
  unfolding get_id
  get_id-Meets t h =
      let v : Store = view t.db in
      finally-Ends K (NoId Fault v) (HasId v) _ t (
        Ends-continue (λ c t'. NoId Fault v c (view t'.db))
          (Fetched K keep_id (0, pos 0) read_last_id [] v) (λ n t'. HasId v n (view t'.db))
          (λ found.
            require (found.0 == 1) invalid_argument
            >> (release
                >> (execute update_id_sql (update_values found.1) os_error os_error
                    >> pure found.1)))
          (fetch last_id_sql [] keep_id os_error (0, pos 0) t)
          (Ends-mono (Failed K os_error v) (λ c t'. NoId Fault v c (view t'.db))
            (Fetched K keep_id (0, pos 0) read_last_id [] v)
            (Fetched K keep_id (0, pos 0) read_last_id [] v) _
            (fetch_all-Ends K read_last_id [] keep_id os_error (0, pos 0) t tt
              (λ b w. ((suc b.0, w.column_int 0), refl))
              (λ rows same. omega (arith, length-AllShowId v.last_id rows same)) (omega arith))
            (λ c t' f. (inl (f.0, f.2), f.1)) (λ _ _ f. f))
          (λ found t' (rows, same, e, keeps).
            let count : 0 + length v.last_id ≡ length v.last_id = omega arith in
            let known : (length v.last_id, last_int (pos 0) v.last_id) ≡ found = ok_inj (
              sym (ap (λ k. ok (k, last_int (pos 0) v.last_id)) count)
              ∙ sym (keep_id-fold 0 (pos 0) v.last_id rows same)
              ∙ e) in
            subst
              (λ (p : ℕ × ℤ). Meets K (NoId Fault v) (HasId v) (
                (require (p.0 == 1) invalid_argument
                    >> (release
                        >> (execute update_id_sql (update_values p.1) os_error os_error
                            >> pure p.1)))
                  t'))
              known (found_id-Meets v.last_id v t' refl keeps)))
