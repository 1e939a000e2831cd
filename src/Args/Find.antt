-- ===== src/Args/Find.antt =====
-- Laws of std::string::find, as splitString uses it.

use mathlib.Core.Logic.{◌≢◌}
use simple_task_queue.Common.{
  ℕ, zero, suc, ◌+◌, ◌≤◌, ◌≡◌, refl, sym, ap, ◌∙◌, true, false, none, some, [], ◌∷◌, ◌++◌, Str,
  length, take, drop, arith, append-nil, length-append,
}
use simple_task_queue.Args.{starts_with, find}

starts_with-take : (d t : Str) → starts_with d t ≡ true → d ++ drop (length d) t ≡ t
unfolding starts_with drop
starts_with-take [] t h = refl
starts_with-take (c ∷ d) [] h = cc
starts_with-take (c ∷ d) (b ∷ t) h = ground (arith, starts_with-take d t)

pub drop-suc : (n m : ℕ) (c : ℕ) (s : Str) → drop (suc n + m) (c ∷ s) ≡ drop (n + m) s
unfolding drop
drop-suc n m c s = let e : suc n + m ≡ suc (n + m) = omega arith in rw e

find-zero : (d s : Str) → find d s ≡ some zero → starts_with d s ≡ true
unfolding find
find-zero d [] h = ground arith
find-zero d (c ∷ s) h = ground arith

find-suc :
    (d s : Str) (c at : ℕ)
    → find d (c ∷ s) ≡ some (suc at)
    → (starts_with d (c ∷ s) ≡ false) × (find d s ≡ some at)
unfolding find
find-suc d s c at h = ground arith

find-nil : (d : Str) (at : ℕ) → find d [] ≡ some at → at ≡ zero
unfolding find
find-nil d at h = ground arith

-- What is found stands there.
pub find_sound :
    (d s : Str) (at : ℕ) → find d s ≡ some at → take at s ++ (d ++ drop (at + length d) s) ≡ s
unfolding take
find_sound d s zero h =
    let e : zero + length d ≡ length d = omega arith in
    rw e (starts_with-take d s (find-zero d s h))
find_sound d [] (suc at) h = absurd (omega (arith, find-nil d (suc at) h))
find_sound d (c ∷ s) (suc at) h =
    rw (drop-suc at (length d) c s) (ap (◌∷◌ c) (find_sound d s at (find-suc d s c at h).1))

pub find_bound : (d s : Str) (at : ℕ) → find d s ≡ some at → at + length d ≤ length s
find_bound d s zero h =
    omega (
      arith,
      ap length (starts_with-take d s (find-zero d s h)),
      length-append d (drop (length d) s),
    )
find_bound d [] (suc at) h = absurd (omega (arith, find-nil d (suc at) h))
find_bound d (c ∷ s) (suc at) h = omega (arith, find_bound d s at (find-suc d s c at h).1)

-- Only what begins at its place counts, so what follows can be cut off or put on.
starts_with-append : (d s t : Str) → length d ≤ length s → starts_with d (s ++ t) ≡ starts_with d s
unfolding starts_with
starts_with-append [] s t h = refl
starts_with-append (c ∷ d) [] t h = absurd (omega arith)
starts_with-append (c ∷ d) (b ∷ s) t h = rw (starts_with-append d s t (omega arith))

starts_with_self : (d t : Str) → starts_with d (d ++ t) ≡ true
unfolding starts_with
starts_with_self [] t = refl
starts_with_self (c ∷ d) t = ground (arith, starts_with_self d t)

find_hit : (d s : Str) → starts_with d s ≡ true → find d s ≡ some 0
unfolding find
find_hit d [] h = rw h
find_hit d (c ∷ s) h = rw h

pub find-append : (d x t : Str) → find d ((x ++ d) ++ t) ≡ find d (x ++ d)
unfolding find
find-append d [] t =
    find_hit d (d ++ t) (starts_with_self d t)
    ∙ sym (find_hit d d (rw append-nil at (starts_with_self d [])))
find-append d (c ∷ x) t =
    rw (starts_with-append d (c ∷ (x ++ d)) t (omega (arith, length-append x d)), find-append d x t)

pub find-ne-none : (d x : Str) → find d (x ++ d) ≢ none
unfolding find
find-ne-none d [] h = cc (find_hit d d (rw append-nil at (starts_with_self d [])))
find-ne-none d (c ∷ x) h = ground (arith, find-ne-none d x)
