-- ===== src/Common/Bytes.antt =====
-- std::string as its list of bytes.
use Prim.Native.Nat.{ℕ}
use Prim.Native.Char.{code}
use Prim.Native.String.{String}
use mathlib.Core.Path.{◌≡◌, refl, ap, sym}
use mathlib.Core.Logic.{◌↔◌, inl, inr}
use mathlib.Core.Bool.{Bool, true, false, ◌&&◌}
use mathlib.Core.List.{List, [], ◌∷◌}
use native.Mathlib.Omega.{arith}
use simple_task_queue.Common.Tests.{◌==◌, Bool-cases}

abbrev pub Str : Type 0
Str = List ℕ

-- The bytes of an ASCII literal.
abbrev pub codes : String → Str
codes String.[] = []
codes (String.◌∷◌ c s) = code c ∷ codes s

-- std::string's operator==.
unfoldable pub str_eq : Str → Str → Bool
str_eq [] [] = true
str_eq [] (y ∷ ys) = false
str_eq (x ∷ xs) [] = false
str_eq (x ∷ xs) (y ∷ ys) = x == y && str_eq xs ys

pub str_eq_sound : (s t : Str) → str_eq s t ≡ true → s ≡ t
unfolding str_eq
str_eq_sound [] [] h = refl
str_eq_sound [] (y ∷ ys) h = cc
str_eq_sound (x ∷ xs) [] h = cc
str_eq_sound (x ∷ xs) (y ∷ ys) h = ground (arith, str_eq_sound xs ys)

pub str_eq_refl : (s : Str) → str_eq s s ≡ true
unfolding str_eq
str_eq_refl [] = refl
str_eq_refl (x ∷ xs) = ground (arith, str_eq_refl xs)

-- `ground` is given this at each pair of strings that is compared.
str_eq_iff : (s t : Str) → (str_eq s t ≡ true) ↔ (s ≡ t)
str_eq_iff s t = (str_eq_sound s t, λ e. cc (e, str_eq_refl s))

pub str_eq_sym_false : (s t : Str) → str_eq s t ≡ false → str_eq t s ≡ false
str_eq_sym_false s t h = elim (Bool-cases (str_eq t s)) [
  | inl e ↦ absurd (cc (h, (str_eq_iff s t).1 (sym (str_eq_sound t s e))))
  | inr e ↦ e
]

pub str_eq_trans : (s t u : Str) → str_eq s t ≡ true → str_eq s u ≡ str_eq t u
str_eq_trans s t u h = ap (λ x. str_eq x u) (str_eq_sound s t h)

-- std::string::empty.
abbrev pub is_empty : Str → Bool
is_empty [] = true
is_empty (c ∷ s) = false

-- std::string's operator+, for the texts of SQL statements.
abbrev pub concat : String → String → String
concat = Prim.Native.String.◌++◌
