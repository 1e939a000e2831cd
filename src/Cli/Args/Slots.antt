-- ===== src/Cli/Args/Slots.antt =====
-- The array of pointers that getArgs fills, and the accesses past its end.
use simple_task_queue.Common.{
  ℕ, zero, suc, ◌+◌, ◌-◌, ◌≤◌, ◌<◌, ◌≡◌, refl, sym, ap, ◌∙◌, subst, Bool-cases, inl, inr, Option,
  none, some, List, [], ◌∷◌, ◌++◌, map, Str, ltb, ◌==◌, length, length-append, arith, false,
}
use native.Mathlib.Decide.{dec_le}
use simple_task_queue.Cli.Args.{
  Args, tokens, nulls, capacity_after, clean_slots, clean_argv, copy_args, reallocate, copied,
  get_args, init_args,
}

length-nulls : (n : ℕ) → length (nulls n) ≡ n
unfolding nulls
length-nulls zero = refl
length-nulls (suc n) = ap suc (length-nulls n)

module _ (grow : ℕ → ℕ) where
  capacity_after-same :
      (n size capacity : ℕ) → size + n ≤ capacity → capacity_after grow n size capacity ≡ capacity
  unfolding capacity_after
  capacity_after-same zero size capacity h = refl
  capacity_after-same (suc n) size capacity h =
      let e : (size == capacity) ≡ false = ground arith in
      rw e (capacity_after-same n (suc size) capacity (omega arith))

  module _ (grows : (c : ℕ) → c < grow c) where
    capacity_after-le : (n size capacity : ℕ) → capacity ≤ capacity_after grow n size capacity
    unfolding capacity_after
    capacity_after-le zero size capacity = omega arith
    capacity_after-le (suc n) size capacity = elim (Bool-cases (size == capacity)) [
      | inl h ↦ rw h (omega (arith, grows capacity, capacity_after-le n (suc size) (grow capacity)))
      | inr h ↦ rw h (capacity_after-le n (suc size) capacity)
    ]

    capacity_after-lt :
        (n size capacity : ℕ)
        → size ≤ capacity
        → capacity < size + n
        → capacity < capacity_after grow n size capacity
    unfolding capacity_after
    capacity_after-lt zero size capacity h k = absurd (omega arith)
    capacity_after-lt (suc n) size capacity h k = elim (Bool-cases (size == capacity)) [
      | inl e ↦ rw e (omega (arith, grows capacity, capacity_after-le n (suc size) (grow capacity)))
      | inr e ↦ rw e (capacity_after-lt n (suc size) capacity (ground arith) (omega arith))
    ]

clean_slots-nulls :
    (n : ℕ) (slots : List (Option Str)) → length slots ≡ n → clean_slots n slots ≡ some (nulls n)
unfolding clean_slots nulls
clean_slots-nulls zero [] h = refl
clean_slots-nulls zero (x ∷ slots) h = absurd (omega arith)
clean_slots-nulls (suc n) [] h = absurd (omega arith)
clean_slots-nulls (suc n) (x ∷ slots) h = rw (clean_slots-nulls n slots (omega arith)) refl

clean_slots-short :
    (n : ℕ) (slots : List (Option Str)) → length slots < n → clean_slots n slots ≡ none
unfolding clean_slots
clean_slots-short zero slots h = absurd (omega arith)
clean_slots-short (suc n) [] h = refl
clean_slots-short (suc n) (x ∷ slots) h = rw (clean_slots-short n slots (omega arith)) refl

-- The arguments, and null pointers up to the end.
abbrev pub filled : List Str → ℕ → List (Option Str)
filled args n = map some args ++ nulls (suc (n - length args))

copy_args-filled :
    (args : List Str) (n : ℕ)
    → length args ≤ n
    → copy_args args (nulls (suc n)) ≡ some (filled args n)
unfolding copy_args nulls
copy_args-filled [] n h = let e : n - 0 ≡ n = omega arith in rw e refl
copy_args-filled (a ∷ args) zero h = absurd (omega arith)
copy_args-filled (a ∷ args) (suc n) h =
    let e : suc n - suc (length args) ≡ n - length args = omega arith in
    rw (copy_args-filled args n (omega arith), e) refl

-- The array is as long as the vector has room, and one more.
abbrev IsFit : Args → Type 0
IsFit a = length a.argv ≡ suc a.capacity

pub init_args-IsFit : IsFit init_args
unfolding init_args nulls
init_args-IsFit = refl

-- What getArgs does with a line.
abbrev pub Takes : Str → Args → Option Args → Type 0
Takes line a none = a.capacity < length (tokens line)
Takes line a (some b) =
    (length (tokens line) ≤ a.capacity)
    × (b.args ≡ tokens line)
    × (b.argv ≡ filled (tokens line) a.capacity)
    × (b.capacity ≡ a.capacity)
    × IsFit b

length-map : (args : List Str) → length (map {B = Option Str} some args) ≡ length args
length-map [] = refl
length-map (a ∷ args) = ap suc (length-map args)

filled-length : (args : List Str) (n : ℕ) → length args ≤ n → length (filled args n) ≡ suc n
filled-length args n h =
    length-append (map some args) (nulls (suc (n - length args)))
    ∙ omega (arith, length-map args, length-nulls (suc (n - length args)))

module _ (grow : ℕ → ℕ) (grows : (c : ℕ) → c < grow c) (line : Str) (a : Args) (fit : IsFit a) where
  within :
      length (tokens line) ≤ a.capacity
      → get_args grow line a
        ≡ some (record {
          args = tokens line;
          capacity = a.capacity;
          argv = filled (tokens line) a.capacity;
        })
  unfolding get_args clean_argv copied reallocate
  within h =
      let same : ltb (length (nulls (suc a.capacity))) (suc a.capacity) ≡ false =
        ground (arith, length-nulls (suc a.capacity)) in
      rw
        (
          capacity_after-same grow (length (tokens line)) 0 a.capacity (omega arith),
          clean_slots-nulls (suc a.capacity) a.argv fit,
          same,
          copy_args-filled (tokens line) a.capacity h,
        )
        refl

  beyond : a.capacity < length (tokens line) → get_args grow line a ≡ none
  unfolding get_args clean_argv copied
  beyond h =
      let more =
        capacity_after-lt grow grows (length (tokens line)) 0 a.capacity (omega arith)
          (omega arith) in
      rw
        (clean_slots-short (suc (capacity_after grow (length (tokens line)) 0 a.capacity)) a.argv
          (omega (arith, more, fit)))
        refl

  -- getArgs, where the array of pointers is as long as the vector has room and one more, as it is
  -- after init: a line of no more arguments than the vector has room is copied, with null pointers
  -- behind the arguments, and this stays so; a line of more makes cleanArgv reach past the array.
  pub get_args-Takes : Takes line a (get_args grow line a)
  get_args-Takes = elim (dec_le (length (tokens line)) a.capacity) [
    | yes h ↦
        subst (Takes line a) (sym (within h))
          (h, refl, refl, refl, filled-length (tokens line) a.capacity h)
    | no h ↦ subst (Takes line a) (sym (beyond (omega arith))) (omega arith)
  ]
