-- ===== src/Common/Perms.antt =====
-- Permutations keep the native length.
use mathlib.Core.Path.{◌≡◌, refl, ap, sym, ◌∙◌}
use mathlib.Core.List.{List, [], ◌∷◌, Perm}
use mathlib.Core.List
use mathlib.Core.List.Perm
use native.Mathlib.Bridge.{from_ℕ}
use Prim.Native.Nat.{suc}
use simple_task_queue.Common.Lists.{length}

length-native {ℓ} : {A : Type ℓ} (xs : List A) → length xs ≡ from_ℕ (List.length xs)
length-native [] = refl
length-native (x ∷ xs) = ap suc (length-native xs)

pub length-perm {ℓ} : {A : Type ℓ} {xs ys : List A} → Perm xs ys → length xs ≡ length ys
length-perm {xs = xs} {ys = ys} p =
    length-native xs ∙ ap from_ℕ (Perm.length-eq p) ∙ sym (length-native ys)
