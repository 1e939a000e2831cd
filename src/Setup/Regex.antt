-- ===== src/Setup/Regex.antt =====
-- std::regex_match, for what the pattern of model/utils.cpp uses: classes of characters, sequences,
-- choices and optional parts.
use simple_task_queue.Common.{
  ℕ, ◌≤◌, ◌≡◌, ◌⊎◌, refl, sym, ap, ◌∙◌, inl, inr, Bool, true, false, ◌&&◌, ◌||◌, [], ◌∷◌, ◌++◌,
  append_assoc, append-nil, Str, leb, arith, ◌↔◌, subst,
}

pub data Regex : Type 0 where
  char_range : ℕ → ℕ → Regex
  then_ or_ : Regex → Regex → Regex
  maybe : Regex → Regex

-- `rest` is what must match behind.
unfoldable match_prefix : Regex → Str → (Str → Bool) → Bool
match_prefix (char_range lo hi) [] rest = false
match_prefix (char_range lo hi) (c ∷ s) rest = (leb lo c && leb c hi) && rest s
match_prefix (then_ a b) s rest = match_prefix a s (λ t. match_prefix b t rest)
match_prefix (or_ a b) s rest = match_prefix a s rest || match_prefix b s rest
match_prefix (maybe a) s rest = match_prefix a s rest || rest s

abbrev pub at_end : Str → Bool
at_end [] = true
at_end (c ∷ s) = false

unfoldable pub regex_match : Regex → Str → Bool
unfolding match_prefix
regex_match r s = match_prefix r s at_end

-- The texts that an expression describes.
abbrev pub Describes : Regex → Str → Type 0
Describes (char_range lo hi) p = (c : ℕ) × (p ≡ c ∷ []) × (lo ≤ c) × (c ≤ hi)
Describes (then_ a b) p = (x : Str) × (y : Str) × (p ≡ x ++ y) × Describes a x × Describes b y
Describes (or_ a b) p = Describes a p ⊎ Describes b p
Describes (maybe a) p = Describes a p ⊎ (p ≡ [])

or_cases : (a b : Bool) → (a || b) ≡ true → (a ≡ true) ⊎ (b ≡ true)
or_cases true b h = inl refl
or_cases false b h = inr h

-- A match is a first part that is described, with a rest that is accepted.
match_prefix-Describes :
    (r : Regex) (s : Str) (rest : Str → Bool)
    → match_prefix r s rest ≡ true
    → (p : Str) × (t : Str) × (s ≡ p ++ t) × Describes r p × (rest t ≡ true)
unfolding match_prefix
match_prefix-Describes (char_range lo hi) [] rest h = absurd (cc h)
match_prefix-Describes (char_range lo hi) (c ∷ s) rest h =
    (c ∷ [], s, refl, (c, refl, ground arith, ground arith), ground arith)
match_prefix-Describes (then_ a b) s rest h =
    let (p, t, e, d, k) = match_prefix-Describes a s (λ t. match_prefix b t rest) h in
    let (q, u, f, g, m) = match_prefix-Describes b t rest k in
    (p ++ q, u, e ∙ ap (λ z. p ++ z) f ∙ sym (append_assoc p q u), (p, q, refl, d, g), m)
match_prefix-Describes (or_ a b) s rest h =
    elim (or_cases (match_prefix a s rest) (match_prefix b s rest) h) [
      | inl k ↦ let (p, t, e, d, m) = match_prefix-Describes a s rest k in (p, t, e, inl d, m)
      | inr k ↦ let (p, t, e, d, m) = match_prefix-Describes b s rest k in (p, t, e, inr d, m)
    ]
match_prefix-Describes (maybe a) s rest h = elim (or_cases (match_prefix a s rest) (rest s) h) [
  | inl k ↦ let (p, t, e, d, m) = match_prefix-Describes a s rest k in (p, t, e, inl d, m)
  | inr k ↦ ([], s, refl, inr refl, k)
]

Describes-match_prefix :
    (r : Regex) (p t : Str) (rest : Str → Bool)
    → Describes r p
    → rest t ≡ true
    → match_prefix r (p ++ t) rest ≡ true
unfolding match_prefix
Describes-match_prefix (char_range lo hi) p t rest (c, e, l, u) k = rw e (ground arith)
Describes-match_prefix (then_ a b) p t rest (x, y, e, d, g) k =
    rw (e, append_assoc)
      (Describes-match_prefix a x (y ++ t) (λ u. match_prefix b u rest) d
        (Describes-match_prefix b y t rest g k))
Describes-match_prefix (or_ a b) p t rest (inl d) k =
    ground (arith, Describes-match_prefix a p t rest d k)
Describes-match_prefix (or_ a b) p t rest (inr d) k =
    ground (arith, Describes-match_prefix b p t rest d k)
Describes-match_prefix (maybe a) p t rest (inl d) k =
    ground (arith, Describes-match_prefix a p t rest d k)
Describes-match_prefix (maybe a) p t rest (inr e) k = rw e (ground arith)

at_end_nil : (t : Str) → at_end t ≡ true → t ≡ []
at_end_nil [] h = refl
at_end_nil (c ∷ t) h = absurd (cc h)

-- The whole text matches exactly if the expression describes it.
pub regex_match-Describes : (r : Regex) (s : Str) → (regex_match r s ≡ true) ↔ Describes r s
unfolding regex_match
regex_match-Describes r s = (
  λ h.
      let (p, t, e, d, k) = match_prefix-Describes r s at_end h in
      subst (Describes r) (sym (e ∙ rw (at_end_nil t k, append-nil) refl)) d,
  λ d. rw append-nil at (Describes-match_prefix r s [] at_end d refl),
)
