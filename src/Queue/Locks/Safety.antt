-- ===== src/Queue/Locks/Safety.antt =====
-- A mutex has the owner that will give it back.
use simple_task_queue.Common.{
  ℕ, ◌≡◌, ◌↔◌, refl, some, List, [], ◌∷◌, Bool, true, false, if◌then◌else◌, arith,
}
use simple_task_queue.Queue.Locks.{
  Mutex, token_mutex, current_task_mutex, Action, take_lock, drop_lock, Call, on_token, on_both,
  on_remove, on_current, on_fin, same_mutex, System, idle, Step, begins, takes, drops, Reach,
  at_start, and_then, token_locks, both_locks, remove_locks, current_locks, fin_locks,
}

-- Whether a thread holds a mutex: whether it will give it back before it takes it.
abbrev pub holds : Mutex → List Action → Bool
holds m [] = false
holds m (take_lock k ∷ l) = if same_mutex k m then false else holds m l
holds m (drop_lock k ∷ l) = if same_mutex k m then true else holds m l

-- What is taken is given back, and what is given back is not held any more.
abbrev pub IsPaired : List Action → Type 0
IsPaired [] = Unit {0}
IsPaired (take_lock m ∷ l) = (holds m l ≡ true) × IsPaired l
IsPaired (drop_lock m ∷ l) = (holds m l ≡ false) × IsPaired l

-- A call that holds nothing at its beginning.
abbrev pub IsFresh : List Action → Type 0
IsFresh l = IsPaired l × ((m : Mutex) → holds m l ≡ false)

each_mutex : (P : Mutex → Type 0) → P token_mutex → P current_task_mutex → (m : Mutex) → P m
each_mutex P a b token_mutex = a
each_mutex P a b current_task_mutex = b

pub Call-IsFresh : (l : List Action) → Call l → IsFresh l
Call-IsFresh l on_token =
    ((refl, (refl, tt)), each_mutex (λ m. holds m token_locks ≡ false) refl refl)
Call-IsFresh l on_both =
    ((refl, (refl, (refl, (refl, tt)))), each_mutex (λ m. holds m both_locks ≡ false) refl refl)
Call-IsFresh l on_remove =
    ((refl, (refl, (refl, (refl, tt)))), each_mutex (λ m. holds m remove_locks ≡ false) refl refl)
Call-IsFresh l on_current =
    ((refl, (refl, tt)), each_mutex (λ m. holds m current_locks ≡ false) refl refl)
Call-IsFresh l on_fin =
    ((refl, (refl, (refl, (refl, tt)))), each_mutex (λ m. holds m fin_locks ≡ false) refl refl)

pub record Inv (s : System) : Type 0 where
  pub owned : (m : Mutex) (i : ℕ) → (s.owner m ≡ some i) ↔ (holds m (s.todo i) ≡ true)
  pub paired : (i : ℕ) → IsPaired (s.todo i)

same_mutex_sound : (m k : Mutex) → same_mutex m k ≡ true → m ≡ k
same_mutex_sound token_mutex token_mutex h = refl
same_mutex_sound token_mutex current_task_mutex h = cc
same_mutex_sound current_task_mutex token_mutex h = cc
same_mutex_sound current_task_mutex current_task_mutex h = refl

module _ {Calls : List Action → Type 0} (fresh : (l : List Action) → Calls l → IsFresh l) where
  Step-Inv : {s t : System} → Step Calls s t → Inv s → Inv t
  Step-Inv {s} (begins i l e c) v = record {
    owned = λ m j. ground (arith, v.owned m j, (fresh l c).1 m);
    paired = λ j. ground (arith, v.paired j, (fresh l c).0);
  }
  Step-Inv {s} (takes i m l e free) v = record {
    owned = λ k j.
        ground (arith, v.owned k j, v.owned k i, v.owned m j, v.paired i, same_mutex_sound m k);
    paired = λ j. ground (arith, v.paired j, v.paired i);
  }
  Step-Inv {s} (drops i m l e) v = record {
    owned = λ k j. ground (
      arith,
      v.owned k j,
      v.owned k i,
      v.owned m j,
      v.owned m i,
      v.paired i,
      same_mutex_sound m k,
    );
    paired = λ j. ground (arith, v.paired j, v.paired i);
  }

  idle-Inv : Inv idle
  idle-Inv = record { owned = λ m i. (λ e. absurd (cc e), λ e. absurd (cc e)); paired = λ i. tt }

  pub Reach-Inv : {s : System} → Reach Calls s → Inv s
  Reach-Inv at_start = idle-Inv
  Reach-Inv (and_then r st) = Step-Inv st (Reach-Inv r)
