-- ===== src/Queue/Valid.antt =====
-- When the tables of a queue are well-formed, and what keeps them so.
use simple_task_queue.Common.{
  ℕ, ◌≤◌, ◌<◌, ◌≡◌, refl, ap, true, false, List, [], ◌∷◌, ◌++◌, ℤ, pos, negsuc, int_eq, to_int32,
  to_int32_id, arith,
}
use simple_task_queue.Queue.Contract.{Store, Entry, has_id, with_id, without_id}

-- The ID is a number that has been given out.
abbrev pub IsBelow : ℕ → ℤ → Type 0
IsBelow n (pos k) = k < n
IsBelow n (negsuc k) = ⊥

abbrev pub AllBelow : ℕ → List Entry → Type 0
AllBelow n [] = Unit {0}
AllBelow n (e ∷ es) = IsBelow n e.id × AllBelow n es

abbrev pub Distinct : List Entry → Type 0
Distinct [] = Unit {0}
Distinct (e ∷ es) = (has_id e.id es ≡ false) × Distinct es

-- No entry of the first list has an ID of the second.
abbrev pub Apart : List Entry → List Entry → Type 0
Apart [] ds = Unit {0}
Apart (e ∷ es) ds = (has_id e.id ds ≡ false) × Apart es ds

-- `n` is the next ID: all others are below it, no two entries share one, and it fits into an `int`.
pub record IsValid (n : ℕ) (v : Store) : Type 0 where
  pub next : v.last_id ≡ pos n ∷ []
  pub fits : n < 2147483648
  pub pending_below : AllBelow n v.pending
  pub done_below : AllBelow n v.done
  pub pending_distinct : Distinct v.pending
  pub done_distinct : Distinct v.done
  pub apart : Apart v.pending v.done

pub AllBelow-mono : (m n : ℕ) (es : List Entry) → m ≤ n → AllBelow m es → AllBelow n es
AllBelow-mono m n [] h b = tt
AllBelow-mono m n (e ∷ es) h b = (below e.id b.0, AllBelow-mono m n es h b.1)
  where
    below : (z : ℤ) → IsBelow m z → IsBelow n z
    below (pos k) l = omega arith
    below (negsuc k) l = l

below_ne : (n : ℕ) (z : ℤ) → IsBelow n z → int_eq z (pos n) ≡ false
below_ne n (pos k) l = ground arith
below_ne n (negsuc k) l = refl

-- The next ID stands nowhere.
pub has_id_next : (n : ℕ) (es : List Entry) → AllBelow n es → has_id (pos n) es ≡ false
has_id_next n [] b = refl
has_id_next n (e ∷ es) b = rw (below_ne n e.id b.0) (has_id_next n es b.1)

pub AllBelow-append :
    (n : ℕ) (es : List Entry) (e : Entry)
    → AllBelow n es
    → IsBelow n e.id
    → AllBelow n (es ++ e ∷ [])
AllBelow-append n [] e b h = (h, tt)
AllBelow-append n (x ∷ es) e b h = (b.0, AllBelow-append n es e b.1 h)

pub has_id-append :
    (z : ℤ) (es : List Entry) (e : Entry)
    → has_id z es ≡ false
    → int_eq e.id z ≡ false
    → has_id z (es ++ e ∷ []) ≡ false
has_id-append z [] e h k = rw k
has_id-append z (x ∷ es) e h k = ground (arith, has_id-append z es e)

pub below_small : (n : ℕ) (z : ℤ) → n < 2147483648 → IsBelow n z → to_int32 z ≡ z
below_small n (pos k) fits l = to_int32_id (pos k) (omega arith)
below_small n (negsuc k) fits l = absurd l

ne_below : (n : ℕ) (z : ℤ) → IsBelow n z → int_eq (pos n) z ≡ false
ne_below n (pos k) l = ground arith
ne_below n (negsuc k) l = refl

pub Distinct-append :
    (n : ℕ) (es : List Entry) (e : Entry)
    → AllBelow n es
    → e.id ≡ pos n
    → Distinct es
    → Distinct (es ++ e ∷ [])
Distinct-append n [] e b same d = (refl, tt)
Distinct-append n (x ∷ es) e b same d = (
  has_id-append x.id es e d.0 (rw same (ne_below n x.id b.0)),
  Distinct-append n es e b.1 same d.1,
)

pub Apart-append :
    (es ds : List Entry) (e : Entry)
    → Apart es ds
    → has_id e.id ds ≡ false
    → Apart (es ++ e ∷ []) ds
Apart-append [] ds e a h = (h, tt)
Apart-append (x ∷ es) ds e a h = (a.0, Apart-append es ds e a.1 h)

-- With distinct IDs the rows with an ID that is absent are none.
with_id-absent : (z : ℤ) (es : List Entry) → has_id z es ≡ false → with_id z es ≡ []
with_id-absent z [] h = refl
with_id-absent z (e ∷ es) h = ground (arith, with_id-absent z es)

pub with_id-append :
    (z : ℤ) (es : List Entry) (e : Entry)
    → has_id z es ≡ false
    → int_eq e.id z ≡ true
    → with_id z (es ++ e ∷ []) ≡ e ∷ []
with_id-append z [] e h k = rw k
with_id-append z (x ∷ es) e h k = ground (arith, with_id-append z es e)

pub int_eq-sym-false : (a b : ℤ) → int_eq a b ≡ false → int_eq b a ≡ false
int_eq-sym-false (pos a) (pos b) h = ground arith
int_eq-sym-false (pos a) (negsuc b) h = refl
int_eq-sym-false (negsuc a) (pos b) h = refl
int_eq-sym-false (negsuc a) (negsuc b) h = ground arith

pub absent_head :
    (z : ℤ) (e : Entry) (es : List Entry) → has_id z (e ∷ es) ≡ false → int_eq e.id z ≡ false
absent_head z e es h = ground arith

pub absent_tail :
    (z : ℤ) (e : Entry) (es : List Entry) → has_id z (e ∷ es) ≡ false → has_id z es ≡ false
absent_tail z e es h = ground arith

-- With distinct IDs the deletion of the first entry takes out no other.
pub without_id-absent : (z : ℤ) (es : List Entry) → has_id z es ≡ false → without_id z es ≡ es
without_id-absent z [] h = refl
without_id-absent z (e ∷ es) h =
    rw (absent_head z e es h) (ap (◌∷◌ e) (without_id-absent z es (absent_tail z e es h)))
