-- ===== src/Args.antt =====
-- model/dao/sqlitequeue.cpp: splitString and concatString, which keep the argument list of a task in
-- one text column.
mod Find
pub mod RoundTrip
pub mod Examples
use simple_task_queue.Common.{
  ℕ, zero, suc, ◌+◌, ◌≡◌, Bool, true, false, ◌&&◌, Option, none, some, List, [], ◌∷◌, ◌++◌, Str,
  codes, ◌==◌, if◌then◌else◌, length, take, drop,
}

abbrev pub delimiter : Str
delimiter = codes "__,__"

-- Whether `t` begins with `d`.
unfoldable pub starts_with : Str → Str → Bool
starts_with [] t = true
starts_with (c ∷ d) [] = false
starts_with (c ∷ d) (b ∷ t) = c == b && starts_with d t

abbrev pub add_one : Option ℕ → Option ℕ
add_one none = none
add_one (some n) = some (suc n)

-- std::string::find: the first position at which `d` occurs; `none` is npos.
unfoldable pub find : Str → Str → Option ℕ
unfolding starts_with
find d [] = if starts_with d [] then some 0 else none
find d (c ∷ t) = if starts_with d (c ∷ t) then some 0 else add_one (find d t)

-- The loop of splitString, `s` and `out` its variables; `none` is a loop that has not ended.
pub split_loop : ℕ → Str → List Str → Option (List Str)
unfolding find take drop
split_loop zero s out = none
split_loop (suc fuel) s out = elim (find delimiter s) [
  | none ↦ some (out ++ s ∷ [])
  | some at ↦ split_loop fuel (drop (at + length delimiter) s) (out ++ take at s ∷ [])
]

abbrev or_nothing : Option (List Str) → List Str
or_nothing none = []
or_nothing (some out) = out

-- One round for each byte and one to end.
unfoldable pub split_string : Str → List Str
unfolding split_loop
split_string s = or_nothing (split_loop (suc (length s)) s [])

-- The loop of concatString and the line behind it, `x` the element that comes next.
concat_loop : Str → Str → List Str → Str
concat_loop out x [] = out ++ x
concat_loop out x (y ∷ ys) = concat_loop (out ++ (x ++ delimiter)) y ys

unfoldable pub concat_string : List Str → Str
unfolding concat_loop
concat_string [] = []
concat_string (x ∷ xs) = concat_loop [] x xs
