-- ===== src/Cli/Args/Words.antt =====
-- What the loop over a line takes for the arguments, against a plain description.
use simple_task_queue.Common.{
  ℕ, zero, suc, ◌+◌, ◌<◌, ◌≡◌, refl, sym, ap, ◌∙◌, Bool, true, false, Bool-cases, Option, none,
  some, List, [], ◌∷◌, ◌++◌, append_assoc, ◌&&◌, Str, is_empty, ◌==◌, if◌then◌else◌, length, take,
  drop, length-drop, arith, inl, inr,
}
use simple_task_queue.Args.{find, starts_with, add_one}
use simple_task_queue.Cli.Args.{space, push_token, token_loop, tokens, or_none}

abbrev in_front : ℕ → List Str → List Str
in_front c [] = []
in_front c (p ∷ ps) = (c ∷ p) ∷ ps

-- The pieces between the spaces of a line, the empty ones too.
unfoldable pub pieces : Str → List Str
pieces [] = [] ∷ []
pieces (c ∷ s) = if c == 32 then [] ∷ pieces s else in_front c (pieces s)

-- Without the empty pieces, of which only the last stays.
abbrev pub kept : List Str → List Str
kept [] = []
kept (p ∷ []) = p ∷ []
kept (p ∷ (q ∷ ps)) = if is_empty p then kept (q ∷ ps) else p ∷ kept (q ∷ ps)

-- The pieces, by where the first space is.
PiecesAt : Str → Option ℕ → Type 0
PiecesAt s none = pieces s ≡ s ∷ []
PiecesAt s (some at) = (pieces s ≡ take at s ∷ pieces (drop (suc at) s)) × (at < length s)

space-PiecesAt :
    (c : ℕ) (s : Str) (b : Bool)
    → (32 == c) ≡ b
    → (o : Option ℕ) → PiecesAt s o
    → PiecesAt (c ∷ s) (if b && true then some 0 else add_one o)
unfolding PiecesAt pieces take drop
space-PiecesAt c s true e o h =
    let is : (c == 32) ≡ true = ground arith in (rw is refl, omega arith)
space-PiecesAt c s false e none h = let is : (c == 32) ≡ false = ground arith in rw (is, h) refl
space-PiecesAt c s false e (some at) h =
    let is : (c == 32) ≡ false = ground arith in (rw (is, h.0) refl, omega (arith, h.1))

find-PiecesAt : (s : Str) → PiecesAt s (find space s)
unfolding find starts_with pieces PiecesAt
find-PiecesAt [] = refl
find-PiecesAt (c ∷ s) = space-PiecesAt c s (32 == c) refl (find space s) (find-PiecesAt s)

pieces-cons : (s : Str) → (p : Str) × (ps : List Str) × (pieces s ≡ p ∷ ps)
unfolding pieces
pieces-cons [] = ([], [], refl)
pieces-cons (c ∷ s) = elim (Bool-cases (c == 32)) [
  | inl h ↦ ([], pieces s, rw h refl)
  | inr h ↦ let (p, ps, e) = pieces-cons s in (c ∷ p, ps, rw (h, e) refl)
]

kept-cons :
    (p : Str) (s : Str) (args : List Str)
    → args ++ kept (p ∷ pieces s) ≡ push_token p args ++ kept (pieces s)
kept-cons [] s args = let (q, ps, e) = pieces-cons s in rw e refl
kept-cons (c ∷ p) s args = let (q, ps, e) = pieces-cons s in rw (e, append_assoc) refl

-- One round of the loop.
round-kept :
    (fuel : ℕ) (line : Str) (args : List Str) (o : Option ℕ)
    → PiecesAt line o
    → ((at : ℕ)
        → at < length line
        → token_loop fuel (drop (suc at) line) (push_token (take at line) args)
          ≡ some (push_token (take at line) args ++ kept (pieces (drop (suc at) line))))
    → elim o [
      | none ↦ some (args ++ line ∷ [])
      | some at ↦ token_loop fuel (drop (at + length space) line) (push_token (take at line) args)
    ]
      ≡ some (args ++ kept (pieces line))
unfolding PiecesAt
round-kept fuel line args none h next = rw h refl
round-kept fuel line args (some at) h next =
    let e : at + length space ≡ suc at = omega arith in
    rw e (
      next at h.1
      ∙ ap some (sym (kept-cons (take at line) (drop (suc at) line) args))
      ∙ rw h.0 refl)

token_loop-kept :
    (fuel : ℕ) (line : Str) (args : List Str)
    → length line < fuel
    → token_loop fuel line args ≡ some (args ++ kept (pieces line))
unfolding token_loop
token_loop-kept zero line args h = absurd (omega arith)
token_loop-kept (suc fuel) line args h =
    round-kept fuel line args (find space line) (find-PiecesAt line) (λ at lt.
      token_loop-kept fuel (drop (suc at) line) (push_token (take at line) args)
        (omega (arith, length-drop (suc at) line (omega arith))))

-- The arguments of a line are its pieces between single spaces, in order, without the empty ones; the
-- last piece is an argument also if it is empty, so a line that ends with a space has an empty last
-- argument.
pub tokens-kept : (line : Str) → tokens line ≡ kept (pieces line)
unfolding tokens
tokens-kept line = ap or_none (token_loop-kept (suc (length line)) line [] (omega arith))
