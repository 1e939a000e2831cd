-- ===== src/Cli/Args.antt =====
-- controller/cli/args.cpp: a line of the terminal as the arguments of a command. `grow` is the capacity
-- that a full vector gets when one more element is pushed.
pub mod Words
pub mod Slots
pub mod Examples
use simple_task_queue.Common.{
  ℕ, zero, suc, ◌+◌, Option, none, some, List, [], ◌∷◌, ◌++◌, Str, codes, is_empty, ltb, ◌==◌,
  if◌then◌else◌, length, take, drop,
}
use simple_task_queue.Args.{find}

abbrev pub space : Str
space = codes " "

abbrev pub push_token : Str → List Str → List Str
push_token token args = if is_empty token then args else args ++ token ∷ []

-- The loop over one line, `line` and `args` its variables; `none` is a loop that has not ended.
unfoldable pub token_loop : ℕ → Str → List Str → Option (List Str)
unfolding find take drop
token_loop zero line args = none
token_loop (suc fuel) line args = elim (find space line) [
  | none ↦ some (args ++ line ∷ [])
  | some at ↦ token_loop fuel (drop (at + length space) line) (push_token (take at line) args)
]

abbrev pub or_none : Option (List Str) → List Str
or_none none = []
or_none (some args) = args

-- One round for each byte and one to end.
unfoldable pub tokens : Str → List Str
unfolding token_loop
tokens line = or_none (token_loop (suc (length line)) line [])

-- m_args with its capacity, and the slots of m_argv, of which m_argvLen is the number.
pub record Args : Type 0 where
  pub args : List Str
  pub capacity : ℕ
  pub argv : List (Option Str)

unfoldable pub nulls : ℕ → List (Option Str)
nulls zero = []
nulls (suc n) = none ∷ nulls n

-- The constructor and init().
unfoldable pub init_args : Args
unfolding nulls
init_args = record { args = []; capacity = 16; argv = nulls 17 }

-- The capacity after `n` pushes onto `size` elements.
unfoldable pub capacity_after : (ℕ → ℕ) → ℕ → ℕ → ℕ → ℕ
capacity_after grow zero size capacity = capacity
capacity_after grow (suc n) size capacity =
    capacity_after grow n (suc size) (if size == capacity then grow capacity else capacity)

abbrev put_slot : Option Str → Option (List (Option Str)) → Option (List (Option Str))
put_slot x none = none
put_slot x (some slots) = some (x ∷ slots)

-- The first `n` slots become null; `none` is an access past the end of the array.
unfoldable pub clean_slots : ℕ → List (Option Str) → Option (List (Option Str))
clean_slots zero slots = some slots
clean_slots (suc n) [] = none
clean_slots (suc n) (x ∷ slots) = put_slot none (clean_slots n slots)

-- cleanArgv goes by the capacity of the vector, which the line may just have changed.
unfoldable pub clean_argv : ℕ → List (Option Str) → Option (List (Option Str))
unfolding clean_slots
clean_argv capacity argv = clean_slots (suc capacity) argv

-- The copies of the arguments, and the null pointer behind them.
unfoldable pub copy_args : List Str → List (Option Str) → Option (List (Option Str))
copy_args [] [] = none
copy_args [] (x ∷ slots) = some (none ∷ slots)
copy_args (a ∷ args) [] = none
copy_args (a ∷ args) (x ∷ slots) = put_slot (some a) (copy_args args slots)

-- A new array, if the vector has outgrown the old one.
unfoldable pub reallocate : ℕ → List (Option Str) → List (Option Str)
unfolding nulls
reallocate new_size argv = if ltb (length argv) new_size then nulls new_size else argv

abbrev with_argv : List Str → ℕ → Option (List (Option Str)) → Option Args
with_argv args capacity none = none
with_argv args capacity (some argv) =
    some (record { args = args; capacity = capacity; argv = argv })

unfoldable pub copied : List Str → ℕ → Option (List (Option Str)) → Option Args
unfolding copy_args reallocate
copied args capacity none = none
copied args capacity (some argv) =
    with_argv args capacity (copy_args args (reallocate (suc capacity) argv))

-- getArgs on one line that is not empty; `none` is an access outside of an array.
unfoldable pub get_args : (ℕ → ℕ) → Str → Args → Option Args
unfolding copied clean_argv tokens capacity_after
get_args grow line a =
    let args = tokens line in
    let capacity = capacity_after grow (length args) 0 a.capacity in
    copied args capacity (clean_argv capacity a.argv)
