-- ===== src/Common/Decimal.antt =====
-- Numbers as std::to_string writes them.
use Prim.Native.Nat.{ℕ, zero, suc, ◌+◌, ◌/◌, ◌%◌}
use mathlib.Core.List.{[], ◌∷◌, ◌++◌}
use simple_task_queue.Common.Tests.{ltb, if◌then◌else◌}
use simple_task_queue.Common.Bytes.{Str}
use simple_task_queue.Common.Int.{ℤ, pos, negsuc}

-- The digits of a number that is smaller than the number of rounds.
unfoldable pub digits : ℕ → ℕ → Str
digits zero n = []
digits (suc rounds) n =
    let high = digits rounds (n / 10) in
    if ltb n 10 then (48 + n) ∷ [] else high ++ (48 + n % 10) ∷ []

-- The byte 45 is the sign.
unfoldable pub to_string : ℤ → Str
unfolding digits
to_string (pos n) = digits (suc n) n
to_string (negsuc n) = 45 ∷ digits (suc (suc n)) (suc n)
