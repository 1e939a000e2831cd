-- ===== src/Exec.antt =====
-- Methods that change an object and return an error code: state passing with early return.
use simple_task_queue.Common.{◌≡◌, ℕ, Bool, true, false}

-- `err` is a `u8` code that is not 0, and `hang` a loop that used up the rounds that it was given.
pub data Result {ℓ} (A : Type ℓ) : Type ℓ where
  ok : A → Result A
  err : ℕ → Result A
  hang : Result A

-- What was written before an early return stays written.
abbrev pub Exec : Type 0 → Type 0 → Type 0
Exec S A = S → Result A × S

module _ {S : Type 0} where
  abbrev pub pure : {A : Type 0} → A → Exec S A
  pure a s = (ok a, s)

  abbrev pub fail : {A : Type 0} → ℕ → Exec S A
  fail code s = (err code, s)

  abbrev pub lift : {A : Type 0} → Result A → Exec S A
  lift r s = (r, s)

  -- `if (!test) return code;`
  abbrev pub require : Bool → ℕ → Exec S (Unit {0})
  require true code s = (ok tt, s)
  require false code s = (err code, s)

  abbrev pub continue : {A B : Type 0} → (A → Exec S B) → Result A × S → Result B × S
  continue f (ok a, s) = f a s
  continue f (err code, s) = (err code, s)
  continue f (hang, s) = (hang, s)

  -- `if (f()) return code;`
  abbrev pub recode : {A : Type 0} → ℕ → Result A × S → Result A × S
  recode code (ok a, s) = (ok a, s)
  recode code (err c, s) = (err code, s)
  recode code (hang, s) = (hang, s)

  infixl 5 ◌>>=◌ ◌>>◌
  abbrev pub ◌>>=◌ : {A B : Type 0} → Exec S A → (A → Exec S B) → Exec S B
  ◌>>=◌ m f s = continue f (m s)

  abbrev pub ◌>>◌ : {A B : Type 0} → Exec S A → Exec S B → Exec S B
  m >> n = m >>= λ _. n

-- How an action ends: with `P` of the value and state, or with `E` of the code and state; it does
-- not hang.
abbrev pub Ends : {S A : Type 0} → (ℕ → S → Type 0) → (A → S → Type 0) → Result A × S → Type 0
Ends E P (ok a, s) = P a s
Ends E P (err code, s) = E code s
Ends E P (hang, s) = ⊥

module _ {S A B : Type 0} (E : ℕ → S → Type 0) (P : A → S → Type 0) (Q : B → S → Type 0) where
  pub Ends-continue :
      (f : A → Exec S B) (r : Result A × S)
      → Ends E P r
      → ((a : A) (s : S) → P a s → Ends E Q (f a s))
      → Ends E Q (continue f r)
  Ends-continue f (ok a, s) h k = k a s h
  Ends-continue f (err code, s) h k = h
  Ends-continue f (hang, s) h k = h

module _ {S A : Type 0} (E E' : ℕ → S → Type 0) (P P' : A → S → Type 0) where
  pub Ends-mono :
      (r : Result A × S)
      → Ends E P r
      → ((code : ℕ) (s : S) → E code s → E' code s)
      → ((a : A) (s : S) → P a s → P' a s)
      → Ends E' P' r
  Ends-mono (ok a, s) h e k = k a s h
  Ends-mono (err code, s) h e k = e code s h
  Ends-mono (hang, s) h e k = h

pub ok_inj : {A : Type 0} {a b : A} → ok a ≡ ok b → a ≡ b
ok_inj h = cc
