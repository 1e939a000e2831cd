-- ===== src/Queue/Keeps.antt =====
-- What keeps the tables of a queue well-formed.
use simple_task_queue.Common.{
  ℕ, ◌+◌, ◌<◌, ◌≡◌, refl, false, List, [], ◌∷◌, ◌++◌, ℤ, pos, arith, subst,
}
use simple_task_queue.Queue.Contract.{Store, Entry, has_id, without_id}
use simple_task_queue.Queue.Valid.{
  AllBelow, Distinct, Apart, IsValid, AllBelow-mono, has_id_next, AllBelow-append, has_id-append,
  Distinct-append, Apart-append, int_eq-sym-false, absent_head, absent_tail,
}

-- A task with the next ID goes behind the pending ones.
pub IsValid-push :
    (n : ℕ) (v : Store) (e : Entry)
    → IsValid n v
    → e.id ≡ pos n
    → n + 1 < 2147483648
    → IsValid (n + 1) (record v { pending = v.pending ++ e ∷ []; last_id = pos (n + 1) ∷ [] })
IsValid-push n v e h same fits = record {
  next = refl;
  fits = fits;
  pending_below =
      AllBelow-append (n + 1) v.pending e
        (AllBelow-mono n (n + 1) v.pending (omega arith) h.pending_below) (rw same (omega arith));
  done_below = AllBelow-mono n (n + 1) v.done (omega arith) h.done_below;
  pending_distinct = Distinct-append n v.pending e h.pending_below same h.pending_distinct;
  done_distinct = h.done_distinct;
  apart = Apart-append v.pending v.done e h.apart (rw same (has_id_next n v.done h.done_below));
}

without-AllBelow : (n : ℕ) (z : ℤ) (es : List Entry) → AllBelow n es → AllBelow n (without_id z es)
without-AllBelow n z [] b = tt
without-AllBelow n z (e ∷ es) b = ground (arith, without-AllBelow n z es b.1)

has_id-without :
    (x z : ℤ) (es : List Entry) → has_id x es ≡ false → has_id x (without_id z es) ≡ false
has_id-without x z [] h = refl
has_id-without x z (e ∷ es) h = ground (arith, has_id-without x z es)

without-Distinct : (z : ℤ) (es : List Entry) → Distinct es → Distinct (without_id z es)
without-Distinct z [] d = tt
without-Distinct z (e ∷ es) d =
    ground (arith, without-Distinct z es d.1, has_id-without e.id z es d.0)

without-Apart : (z : ℤ) (es ds : List Entry) → Apart es ds → Apart (without_id z es) ds
without-Apart z [] ds a = tt
without-Apart z (e ∷ es) ds a = ground (arith, without-Apart z es ds a.1)

-- Rows may be taken out of pending.
pub IsValid-delete :
    (n : ℕ) (v : Store) (z : ℤ)
    → IsValid n v
    → IsValid n (record v { pending = without_id z v.pending })
IsValid-delete n v z h = record {
  next = h.next;
  fits = h.fits;
  pending_below = without-AllBelow n z v.pending h.pending_below;
  done_below = h.done_below;
  pending_distinct = without-Distinct z v.pending h.pending_distinct;
  done_distinct = h.done_distinct;
  apart = without-Apart z v.pending v.done h.apart;
}

-- The rows of a task table may be cleared.
pub IsValid-clear_pending :
    (n : ℕ) (v : Store) → IsValid n v → IsValid n (record v { pending = [] })
IsValid-clear_pending n v h = record {
  next = h.next;
  fits = h.fits;
  pending_below = tt;
  done_below = h.done_below;
  pending_distinct = tt;
  done_distinct = h.done_distinct;
  apart = tt;
}

Apart-nil : (es : List Entry) → Apart es []
Apart-nil [] = tt
Apart-nil (e ∷ es) = (refl, Apart-nil es)

pub IsValid-clear_done : (n : ℕ) (v : Store) → IsValid n v → IsValid n (record v { done = [] })
IsValid-clear_done n v h = record {
  next = h.next;
  fits = h.fits;
  pending_below = h.pending_below;
  done_below = tt;
  pending_distinct = h.pending_distinct;
  done_distinct = tt;
  apart = Apart-nil v.pending;
}

Distinct-put :
    (ds : List Entry) (e : Entry) → Distinct ds → has_id e.id ds ≡ false → Distinct (ds ++ e ∷ [])
Distinct-put [] e d h = (refl, tt)
Distinct-put (x ∷ ds) e d h = (
  has_id-append x.id ds e d.0 (int_eq-sym-false x.id e.id (absent_head e.id x ds h)),
  Distinct-put ds e d.1 (absent_tail e.id x ds h),
)

Apart-put :
    (es ds : List Entry) (e : Entry)
    → Apart es ds
    → has_id e.id es ≡ false
    → Apart es (ds ++ e ∷ [])
Apart-put [] ds e a h = tt
Apart-put (x ∷ es) ds e a h = (
  has_id-append x.id ds e a.0 (int_eq-sym-false x.id e.id (absent_head e.id x es h)),
  Apart-put es ds e a.1 (absent_tail e.id x es h),
)

-- The first pending task may go behind the done ones, with its ID.
pub IsValid-finish :
    (n : ℕ) (v : Store) (e e' : Entry) (es : List Entry)
    → IsValid n v
    → v.pending ≡ e ∷ es
    → e'.id ≡ e.id
    → IsValid n (record v { pending = es; done = v.done ++ e' ∷ [] })
IsValid-finish n v e e' es h first same =
    let below : AllBelow n (e ∷ es) = subst (AllBelow n) first h.pending_below in
    let distinct : Distinct (e ∷ es) = subst Distinct first h.pending_distinct in
    let apart : Apart (e ∷ es) v.done = subst (λ ps. Apart ps v.done) first h.apart in
    record {
      next = h.next;
      fits = h.fits;
      pending_below = below.1;
      done_below = AllBelow-append n v.done e' h.done_below (rw same below.0);
      pending_distinct = distinct.1;
      done_distinct = Distinct-put v.done e' h.done_distinct (rw same apart.0);
      apart = Apart-put es v.done e' apart.1 (rw same distinct.0);
    }
