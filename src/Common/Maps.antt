-- ===== src/Common/Maps.antt =====
-- std::unordered_map<std::string, V>: the entries in the order in which an iterator meets them.
use native.Mathlib.Omega.{arith}
use mathlib.Core.List.{List, [], ◌∷◌, map}
use mathlib.Core.Path.{◌≡◌, refl, subst, ◌∙◌}
use mathlib.Core.Bool.{false}
use mathlib.Core.Logic.{inl, inr, ◌≢◌}
use simple_task_queue.Common.Bytes.{
  Str, str_eq, str_eq_refl, str_eq_sound, str_eq_sym_false, str_eq_trans,
}
use simple_task_queue.Common.Tests.{Bool-cases, if◌then◌else◌}
use mathlib.Core.Option.{Option, none, some}

pub record Named {ℓ} (V : Type ℓ) : Type ℓ where
  pub name : Str
  pub value : V

module _ {ℓ} {V : Type ℓ} where
  -- find, without the iterator.
  abbrev pub lookup : Str → List (Named V) → Option V
  lookup k [] = none
  lookup k (e ∷ es) = if str_eq e.name k then some e.value else lookup k es

  -- m[k] = v
  abbrev pub assign : Str → V → List (Named V) → List (Named V)
  assign k v [] = record { name = k; value = v } ∷ []
  assign k v (e ∷ es) =
      if str_eq e.name k then record { name = e.name; value = v } ∷ es else e ∷ assign k v es

  abbrev pub erase : Str → List (Named V) → List (Named V)
  erase k [] = []
  erase k (e ∷ es) = if str_eq e.name k then es else e ∷ erase k es

  abbrev pub names : List (Named V) → List Str
  names = map λ e. e.name

  -- No key twice.
  abbrev pub IsMap : List (Named V) → Type ℓ
  IsMap [] = Unit
  IsMap (e ∷ es) = (lookup e.name es ≡ none) × IsMap es

  some_ne : {v : V} → some v ≢ none
  some_ne h = cc

  pub lookup-assign : (k : Str) (v : V) (m : List (Named V)) → lookup k (assign k v m) ≡ some v
  lookup-assign k v [] = rw (str_eq_refl k) refl
  lookup-assign k v (e ∷ es) = elim (Bool-cases (str_eq e.name k)) [
    | inl h ↦ rw (h, h) refl
    | inr h ↦ rw (h, h) (lookup-assign k v es)
  ]

  pub lookup-assign_other :
      (k l : Str) (v : V) (m : List (Named V))
      → str_eq k l ≡ false
      → lookup l (assign k v m) ≡ lookup l m
  lookup-assign_other k l v [] h = rw h refl
  lookup-assign_other k l v (e ∷ es) h = elim (Bool-cases (str_eq e.name k)) [
    | inl g ↦ rw (g, str_eq_trans e.name k l g, h) refl
    | inr g ↦ rw (g, lookup-assign_other k l v es h) refl
  ]

  pub lookup-erase : (k : Str) (m : List (Named V)) → IsMap m → lookup k (erase k m) ≡ none
  lookup-erase k [] u = refl
  lookup-erase k (e ∷ es) u = elim (Bool-cases (str_eq e.name k)) [
    | inl g ↦ rw g (subst (λ x. lookup x es ≡ none) (str_eq_sound e.name k g) u.0)
    | inr g ↦ rw (g, g) (lookup-erase k es u.1)
  ]

  pub lookup-erase_other :
      (k l : Str) (m : List (Named V)) → str_eq k l ≡ false → lookup l (erase k m) ≡ lookup l m
  lookup-erase_other k l [] h = refl
  lookup-erase_other k l (e ∷ es) h = elim (Bool-cases (str_eq e.name k)) [
    | inl g ↦ rw (g, str_eq_trans e.name k l g, h) refl
    | inr g ↦ rw (g, lookup-erase_other k l es h) refl
  ]

  pub IsMap-assign : (k : Str) (v : V) (m : List (Named V)) → IsMap m → IsMap (assign k v m)
  IsMap-assign k v [] u = (refl, tt)
  IsMap-assign k v (e ∷ es) u = elim (Bool-cases (str_eq e.name k)) [
    | inl g ↦ rw g u
    | inr g ↦ rw g (
      lookup-assign_other k e.name v es (str_eq_sym_false e.name k g) ∙ u.0,
      IsMap-assign k v es u.1,
    )
  ]

  absent-tail :
      (l : Str) (e : Named V) (es : List (Named V))
      → lookup l (e ∷ es) ≡ none
      → (str_eq e.name l ≡ false) × (lookup l es ≡ none)
  absent-tail l e es h = ground arith

  erase-absent : (k l : Str) (m : List (Named V)) → lookup l m ≡ none → lookup l (erase k m) ≡ none
  erase-absent k l [] h = refl
  erase-absent k l (e ∷ es) h =
      let (ne, tail) = absent-tail l e es h in
      elim (Bool-cases (str_eq e.name k)) [
        | inl i ↦ rw i tail
        | inr i ↦ rw (i, ne) (erase-absent k l es tail)
      ]

  pub IsMap-erase : (k : Str) (m : List (Named V)) → IsMap m → IsMap (erase k m)
  IsMap-erase k [] u = tt
  IsMap-erase k (e ∷ es) u = elim (Bool-cases (str_eq e.name k)) [
    | inl g ↦ rw g u.1
    | inr g ↦ rw g (erase-absent k e.name es u.0, IsMap-erase k es u.1)
  ]
