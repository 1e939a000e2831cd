-- ===== src/Args/RoundTrip.antt =====
-- model/dao/sqlitequeue.cpp: splitString and concatString, one after the other.
use mathlib.Core.Path.{ap₂}
use mathlib.Core.Logic.{◌≢◌}
use mathlib.Core.List.{append_cancel_left}
use simple_task_queue.Common.{
  ℕ, zero, suc, ◌+◌, ◌<◌, ◌≡◌, refl, sym, ap, ◌∙◌, inl, inr, none, some, List, [], ◌∷◌, ◌++◌, Str,
  length, take, drop, arith, Option-cases, some_inj, ◌↔◌, append_assoc, length-append, take-append,
  drop-append, length-take, length-drop,
}
use simple_task_queue.Args.Find.{drop-suc, find_sound, find_bound, find-append, find-ne-none}
use simple_task_queue.Args.{
  delimiter, starts_with, find, split_loop, split_string, concat_loop, concat_string,
}

-- The text that concatString builds.
abbrev joined : Str → List Str → Str
joined x [] = x
joined x (y ∷ ys) = x ++ (delimiter ++ joined y ys)

concat_loop-joined : (out x : Str) (xs : List Str) → concat_loop out x xs ≡ out ++ joined x xs
unfolding concat_loop
concat_loop-joined out x [] = refl
concat_loop-joined out x (y ∷ ys) =
    rw (concat_loop-joined (out ++ (x ++ delimiter)) y ys) (simp append_assoc)

module _ (fuel : ℕ) (s : Str) (out : List Str) where
  split_loop_last : find delimiter s ≡ none → split_loop (suc fuel) s out ≡ some (out ++ s ∷ [])
  unfolding split_loop
  split_loop_last h = rw (h, split_loop)

  split_loop_next :
      (at : ℕ)
      → find delimiter s ≡ some at
      → split_loop (suc fuel) s out ≡ split_loop fuel (drop (at + 5) s) (out ++ take at s ∷ [])
  unfolding split_loop
  split_loop_next at h = rw (h, split_loop)

-- The loop ends, having put behind `out` a list that is not empty and whose joined text is `s`.
abbrev Splits : ℕ → Str → List Str → Type 0
Splits fuel s out =
    (x : Str) × (xs : List Str) × (split_loop fuel s out ≡ some (out ++ x ∷ xs)) × (joined x xs ≡ s)

Splits-next :
    (fuel : ℕ) (s : Str) (out : List Str) (at : ℕ)
    → find delimiter s ≡ some at
    → Splits fuel (drop (at + 5) s) (out ++ take at s ∷ [])
    → Splits (suc fuel) s out
Splits-next fuel s out at e (x, xs, ends, text) = (
  take at s,
  x ∷ xs,
  split_loop_next fuel s out at e ∙ ends ∙ ap some (append_assoc out (take at s ∷ []) (x ∷ xs)),
  rw text (find_sound delimiter s at e),
)

split_loop_total : (fuel : ℕ) (s : Str) (out : List Str) → length s < fuel → Splits fuel s out
split_loop_total zero s out h = absurd (omega arith)
split_loop_total (suc fuel) s out h = elim (Option-cases (find delimiter s)) [
  | inl e ↦ (s, [], split_loop_last fuel s out e, refl)
  | inr (at, e) ↦ Splits-next fuel s out at e (
      split_loop_total fuel (drop (at + 5) s) (out ++ take at s ∷ [])
        (omega (arith, find_bound delimiter s at e, length-drop (at + 5) s)))
]

-- The lists that survive the text column: no delimiter begins in an element or across its end.
abbrev pub IsRepresentable : List Str → Type 0
IsRepresentable [] = ⊥
IsRepresentable (x ∷ []) = find delimiter x ≡ none
IsRepresentable (x ∷ (y ∷ ys)) =
    (find delimiter (x ++ delimiter) ≡ some (length x)) × IsRepresentable (y ∷ ys)

find-joined :
    (x y : Str) (ys : List Str)
    → find delimiter (joined x (y ∷ ys)) ≡ find delimiter (x ++ delimiter)
find-joined x y ys =
    ap (find delimiter) (sym (append_assoc x delimiter (joined y ys)))
    ∙ find-append delimiter x (joined y ys)

drop-length : (x t : Str) (m : ℕ) → drop (length x + m) (x ++ t) ≡ drop m t
drop-length [] t m = let e : 0 + m ≡ m = omega arith in rw e
drop-length (c ∷ x) t m = drop-suc (length x) m c (x ++ t) ∙ drop-length x t m

drop-joined : (x y : Str) (ys : List Str) → drop (length x + 5) (joined x (y ∷ ys)) ≡ joined y ys
drop-joined x y ys =
    drop-length x (delimiter ++ joined y ys) 5 ∙ drop-append delimiter (joined y ys)

split_loop-joined :
    (fuel : ℕ) (x : Str) (xs out : List Str)
    → IsRepresentable (x ∷ xs)
    → length (joined x xs) < fuel
    → split_loop fuel (joined x xs) out ≡ some (out ++ x ∷ xs)
split_loop-joined zero x xs out r h = absurd (omega arith)
split_loop-joined (suc fuel) x [] out r h = split_loop_last fuel x out r
split_loop-joined (suc fuel) x (y ∷ ys) out r h =
    split_loop_next fuel (joined x (y ∷ ys)) out (length x) (find-joined x y ys ∙ r.0)
    ∙ ap₂ (split_loop fuel) (drop-joined x y ys)
        (ap (λ p. out ++ p ∷ []) (take-append x (delimiter ++ joined y ys)))
    ∙ split_loop-joined fuel y ys (out ++ x ∷ []) r.1
        (omega (arith, length-append x (delimiter ++ joined y ys)))
    ∙ ap some (append_assoc out (x ∷ []) (y ∷ ys))

-- What a delimiter at `at` says of the pieces.
pieces :
    (fuel : ℕ) (s : Str) (out zs : List Str) (at : ℕ)
    → find delimiter s ≡ some at
    → length s < suc fuel
    → split_loop (suc fuel) s out ≡ some (out ++ zs)
    → (x : Str) × (xs : List Str) × (zs ≡ take at s ∷ x ∷ xs)
      × (split_loop fuel (drop (at + 5) s) (out ++ take at s ∷ [])
          ≡ some ((out ++ take at s ∷ []) ++ x ∷ xs))
pieces fuel s out zs at e h runs =
    let (x, xs, ends, text) =
      split_loop_total fuel (drop (at + 5) s) (out ++ take at s ∷ [])
        (omega (arith, find_bound delimiter s at e, length-drop (at + 5) s)) in
    (
      x,
      xs,
      append_cancel_left out _ _ (
          some_inj (
            sym runs
            ∙ split_loop_next fuel s out at e
            ∙ ends
            ∙ ap some (append_assoc out (take at s ∷ []) (x ∷ xs)))),
      ends,
    )

split_loop-IsRepresentable :
    (fuel : ℕ) (x : Str) (xs out : List Str)
    → length (joined x xs) < fuel
    → split_loop fuel (joined x xs) out ≡ some (out ++ x ∷ xs)
    → IsRepresentable (x ∷ xs)
split_loop-IsRepresentable zero x xs out h runs = absurd (omega arith)
split_loop-IsRepresentable (suc fuel) x [] out h runs = elim (Option-cases (find delimiter x)) [
  | inl e ↦ e
  | inr (at, e) ↦ let (y, ys, same, _) = pieces fuel x out (x ∷ []) at e h runs in absurd (cc)
]
split_loop-IsRepresentable (suc fuel) x (y ∷ ys) out h runs =
    elim (Option-cases (find delimiter (x ++ delimiter))) [
      | inl e ↦ absurd (find-ne-none delimiter x e)
      | inr (at, e) ↦
          let J : Str = joined x (y ∷ ys) in
          let found : find delimiter J ≡ some at = find-joined x y ys ∙ e in
          let (z, zs, same, rest) = pieces fuel J out (x ∷ (y ∷ ys)) at found h runs in
          let first : take at J ≡ x = cc in
          let others : z ∷ zs ≡ y ∷ ys = cc in
          let place : at ≡ length x = omega (
            arith,
            ap length first,
            length-take at J (omega (arith, find_bound delimiter J at found)),
          ) in
          (
            e ∙ ap some place,
            split_loop-IsRepresentable fuel y ys (out ++ x ∷ [])
                (omega (arith, length-append x (delimiter ++ joined y ys)))
                (ap₂ (split_loop fuel)
                    (sym (drop-joined x y ys) ∙ ap (λ n. drop (n + 5) J) (sym place))
                    (ap (λ p. out ++ p ∷ []) (sym first))
                  ∙ rest
                  ∙ ap₂ (λ p q. some ((out ++ p ∷ []) ++ q)) first others),
          )
    ]

-- The rounds that split_string takes suffice: the loop ends, for every text.
pub split_loop-split_string : (s : Str) → split_loop (suc (length s)) s [] ≡ some (split_string s)
unfolding split_string
split_loop-split_string s =
    let (x, xs, ends, _) = split_loop_total (suc (length s)) s [] (omega arith) in
    rw (ends, split_string)

-- Splitting what concatString built gives the list back exactly if the list is representable: it is
-- not empty, in each element but the last the first delimiter of the element with a delimiter
-- behind it stands at its end, and the last holds no delimiter.
pub split-concat_iff : (xs : List Str) → (split_string (concat_string xs) ≡ xs) ↔ IsRepresentable xs
unfolding split_string concat_string
split-concat_iff [] = (λ h. cc, λ h. absurd h)
split-concat_iff (x ∷ xs) =
    let text : concat_loop [] x xs ≡ joined x xs = concat_loop-joined [] x xs in
    let fuel = suc (length (joined x xs)) in
    let ends : split_loop fuel (joined x xs) [] ≡ some (split_string (joined x xs)) =
      split_loop-split_string (joined x xs) in
    (
      λ h.
          split_loop-IsRepresentable fuel x xs [] (omega arith)
            (ends ∙ ap some (ap split_string (sym text) ∙ h)),
      λ r.
          ap split_string text
          ∙ some_inj (sym ends ∙ split_loop-joined fuel x xs [] r (omega arith)),
    )

-- Joining what splitString made of a text gives that text back, and splitString never makes the
-- empty list.
pub concat-split : (s : Str) → (concat_string (split_string s) ≡ s) × (split_string s ≢ [])
unfolding split_string concat_string
concat-split s =
    let (x, xs, ends, text) = split_loop_total (suc (length s)) s [] (omega arith) in
    (rw (ends, split_string) (concat_loop-joined [] x xs ∙ text), λ h. cc)

-- The byte of a comma occurs nowhere in `s`.
abbrev HasNoComma : Str → Type 0
HasNoComma [] = Unit {0}
HasNoComma (c ∷ s) = (c ≢ 44) × HasNoComma s

abbrev AllHaveNoComma : List Str → Type 0
AllHaveNoComma [] = Unit {0}
AllHaveNoComma (x ∷ xs) = HasNoComma x × AllHaveNoComma xs

no_comma_last : (x : Str) → HasNoComma x → find delimiter x ≡ none
unfolding find starts_with
no_comma_last [] h = refl
no_comma_last (a ∷ []) h = ground arith
no_comma_last (a ∷ (b ∷ [])) h = ground arith
no_comma_last (a ∷ (b ∷ (c ∷ x))) h = ground (arith, no_comma_last (b ∷ (c ∷ x)) h.1)

no_comma_inner : (x : Str) → HasNoComma x → find delimiter (x ++ delimiter) ≡ some (length x)
unfolding find starts_with
no_comma_inner [] h = refl
no_comma_inner (a ∷ []) h = ground arith
no_comma_inner (a ∷ (b ∷ [])) h = ground arith
no_comma_inner (a ∷ (b ∷ (c ∷ x))) h = ground (arith, no_comma_inner (b ∷ (c ∷ x)) h.1)

pub no_comma-IsRepresentable :
    (x : Str) (xs : List Str) → AllHaveNoComma (x ∷ xs) → IsRepresentable (x ∷ xs)
no_comma-IsRepresentable x [] h = no_comma_last x h.0
no_comma-IsRepresentable x (y ∷ ys) h = (no_comma_inner x h.0, no_comma-IsRepresentable y ys h.1)

-- A list that is not empty and none of whose elements holds a comma survives the text column.
split-concat_no_comma :
    (x : Str) (xs : List Str)
    → AllHaveNoComma (x ∷ xs)
    → split_string (concat_string (x ∷ xs)) ≡ x ∷ xs
split-concat_no_comma x xs h = (split-concat_iff (x ∷ xs)).1 (no_comma-IsRepresentable x xs h)
