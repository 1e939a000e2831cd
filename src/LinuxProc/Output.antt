-- ===== src/LinuxProc/Output.antt =====
-- model/proc/linuxproc.cpp: the buffer of outputs, between readOutputLoop and readCurrentOutput.
use simple_task_queue.Common.{
  ◌⊎◌, ◌≢◌, Option, none, some, ℕ, zero, suc, ◌+◌, ◌/◌, ◌≤◌, ◌<◌, ◌≡◌, refl, sym, ap, ◌∙◌, Bool,
  true, false, List, [], ◌∷◌, ◌++◌, Str, length, drop, length-append, append_assoc, append-nil,
  arith, ◌==◌, ltb, if◌then◌else◌, Bool-cases, inl, inr, subst,
}
use simple_task_queue.LinuxProc.{
  push_output, read_loop, read_outputs, read_event, read_output_loop, ReadResult, piece, at_end,
  try_again, read_failed,
}

-- What the loop has taken is the front of the buffer; it stops when the index reaches what is left.
abbrev Took : ℕ → List Str → List Str → List Str × List Str → Type 0
Took index out outputs (out', rest) =
    (taken : List Str) × (out' ≡ out ++ taken)
    × (taken ++ rest ≡ outputs)
    × (length rest ≤ index + length taken)
    × (index + length taken ≤ length rest + 1)

ltb_less : (a b : ℕ) → ltb a b ≡ true → a < b
ltb_less a b h = ground arith

ltb_not : (a b : ℕ) → ltb a b ≡ false → b ≤ a
ltb_not a b h = ground arith

equal_of : (a b : ℕ) → (a == b) ≡ true → a ≡ b
equal_of a b h = ground arith

unequal_of : (a b : ℕ) → (a == b) ≡ false → a ≢ b
unequal_of a b h = ground arith

Took-cons :
    (index : ℕ) (out : List Str) (buf : Str) (outputs : List Str) (r : List Str × List Str)
    → Took (index + 1) (out ++ buf ∷ []) outputs r
    → Took index out (buf ∷ outputs) r
Took-cons index out buf outputs (out', rest) (taken, same, whole, least, most) = (
  buf ∷ taken,
  same ∙ append_assoc out (buf ∷ []) taken,
  ap (◌∷◌ buf) whole,
  omega (arith, least),
  omega (arith, most),
)

read_loop-Took :
    (rounds index : ℕ) (out outputs : List Str)
    → length outputs ≤ rounds
    → index ≤ length outputs + 1
    → Took index out outputs (read_loop rounds index out outputs)
unfolding read_loop
read_loop-Took zero index out [] h k =
    ([], sym (append-nil out), refl, omega arith, omega (arith, k))
read_loop-Took zero index out (buf ∷ outputs) h k = absurd (omega (arith, h))
read_loop-Took (suc rounds) index out [] h k =
    ([], sym (append-nil out), refl, omega arith, omega (arith, k))
read_loop-Took (suc rounds) index out (buf ∷ outputs) h k =
    elim (Bool-cases (ltb index (length (buf ∷ outputs)))) [
      | inl goes ↦ rw goes (
          Took-cons index out buf outputs _ (
            read_loop-Took rounds (index + 1) (out ++ buf ∷ []) outputs (omega (arith, h))
              (omega (arith, ltb_less index (length (buf ∷ outputs)) goes))))
      | inr ends ↦ rw ends (
        [],
        sym (append-nil out),
        refl,
        omega (arith, ltb_not index (length (buf ∷ outputs)) ends),
        omega (arith, k),
      )
    ]

-- readCurrentOutput gives the oldest outputs, in their order, and leaves the others; it gives only half
-- of them, rounded up.
pub read_outputs_lem :
    (outputs : List Str)
    → (let (out, rest) = read_outputs outputs in
        (out ++ rest ≡ outputs) × (length out ≡ (length outputs + 1) / 2))
unfolding read_outputs
read_outputs_lem outputs =
    let (taken, same, whole, least, most) =
      read_loop-Took (length outputs) 0 [] outputs (omega arith) (omega arith) in
    (
      ap (λ xs. xs ++ (read_loop (length outputs) 0 [] outputs).1) same ∙ whole,
      omega (
        arith,
        ap length same,
        ap length whole,
        length-append taken (read_loop (length outputs) 0 [] outputs).1,
        least,
        most,
      ),
    )

-- The piece that an event brings, if it brings one.
abbrev first_piece : List ReadResult → Option Str
first_piece [] = none
first_piece (piece buf ∷ reads) = some buf
first_piece (at_end ∷ reads) = none
first_piece (try_again ∷ reads) = first_piece reads
first_piece (read_failed ∷ reads) = none

abbrev pieces_after : Option Str → List Str → List Str
pieces_after none rest = []
pieces_after (some buf) rest = buf ∷ rest

-- The pieces of the events, up to the first that brings none.
abbrev pub pieces : List (List ReadResult) → List Str
pieces [] = []
pieces (reads ∷ events) = let rest = pieces events in pieces_after (first_piece reads) rest

-- `kept` is the end of `all`, as much of it as `max` allows.
abbrev pub IsEnd : ℕ → List Str → List Str → Type 0
IsEnd max all kept =
    (lost : List Str) × (lost ++ kept ≡ all)
    × (length kept ≤ max)
    × ((length lost ≡ 0) ⊎ (length kept ≡ max))

push_output-IsEnd :
    (max : ℕ) (buf : Str) (outputs : List Str)
    → 0 < max
    → length outputs ≤ max
    → IsEnd max (outputs ++ buf ∷ []) (push_output max buf outputs)
unfolding push_output drop
push_output-IsEnd max buf [] some_room h =
    let test : (0 == max) ≡ false = ground (arith, some_room) in
    rw test ([], refl, omega (arith, some_room), inl refl)
push_output-IsEnd max buf (first ∷ outputs) some_room h =
    let size = length-append outputs (buf ∷ []) in
    elim (Bool-cases (length (first ∷ outputs) == max)) [
      | inl full ↦ rw full (
        first ∷ [],
        refl,
        omega (arith, size, equal_of (length (first ∷ outputs)) max full),
        inr (omega (arith, size, equal_of (length (first ∷ outputs)) max full)),
      )
      | inr room ↦ rw room (
        [],
        refl,
        omega (arith, h, size, unequal_of (length (first ∷ outputs)) max room),
        inl refl,
      )
    ]

IsEnd-trans :
    (max : ℕ) (all more middle kept : List Str)
    → IsEnd max all middle
    → IsEnd max (middle ++ more) kept
    → IsEnd max (all ++ more) kept
IsEnd-trans max all more middle kept (lost, e, h, one) (lost', e', h', two) = (
  lost ++ lost',
  append_assoc lost lost' kept
      ∙ ap (λ xs. lost ++ xs) e'
      ∙ sym (append_assoc lost middle more)
      ∙ ap (λ xs. xs ++ more) e,
  h',
  elim two [
    | inr full ↦ inr full
    | inl no_more ↦ elim one [
      | inl nothing ↦ inl (omega (arith, length-append lost lost', nothing, no_more))
      | inr full ↦ inr (
          omega (
            arith,
            length-append lost' kept,
            length-append middle more,
            ap length e',
            no_more,
            full,
            h',
          ))
    ]
  ],
)

-- What the thread does next with an event: it keeps the piece and goes on, or it ends.
abbrev happened : ℕ → List Str → Option Str → Bool × List Str
happened max outputs none = (false, outputs)
happened max outputs (some buf) = (true, push_output max buf outputs)

read_event-happened :
    (max : ℕ) (reads : List ReadResult) (outputs : List Str)
    → read_event max reads outputs ≡ happened max outputs (first_piece reads)
unfolding read_event
read_event-happened max [] outputs = refl
read_event-happened max (piece buf ∷ reads) outputs = refl
read_event-happened max (at_end ∷ reads) outputs = refl
read_event-happened max (try_again ∷ reads) outputs = read_event-happened max reads outputs
read_event-happened max (read_failed ∷ reads) outputs = refl

IsEnd-refl :
    (max : ℕ) (outputs : List Str) → length outputs ≤ max → IsEnd max (outputs ++ []) outputs
IsEnd-refl max outputs h = ([], sym (append-nil outputs), h, inl refl)

-- The rest of the loop, behind an event.
abbrev goes_on : ℕ → List (List ReadResult) → Bool × List Str → List Str
goes_on max events (more, outputs) =
    let rest = read_output_loop max events outputs in if more then rest else outputs

behind-IsEnd :
    (max : ℕ) (events : List (List ReadResult)) (outputs : List Str)
    → 0 < max
    → length outputs ≤ max
    → (o : Option Str)
    → ((os : List Str)
        → length os ≤ max
        → IsEnd max (os ++ pieces events) (read_output_loop max events os))
    → IsEnd max
        (outputs ++ pieces_after o (pieces events))
        (goes_on max events (happened max outputs o))
behind-IsEnd max events outputs some_room h none next = IsEnd-refl max outputs h
behind-IsEnd max events outputs some_room h (some buf) next =
    let pushed = push_output-IsEnd max buf outputs some_room h in
    subst (λ xs. IsEnd max xs (read_output_loop max events (push_output max buf outputs)))
      (append_assoc outputs (buf ∷ []) (pieces events))
      (IsEnd-trans max (outputs ++ buf ∷ []) (pieces events) (push_output max buf outputs) _ pushed
        (next (push_output max buf outputs) pushed.2))

-- The thread leaves the last pieces that it got in the buffer, behind those that were there, as
-- many as there is room for: the oldest go first, and only from a full buffer. The room is not 0,
-- and the buffer is within it at first.
pub read_output_loop-IsEnd :
    (max : ℕ) (events : List (List ReadResult)) (outputs : List Str)
    → 0 < max
    → length outputs ≤ max
    → IsEnd max (outputs ++ pieces events) (read_output_loop max events outputs)
unfolding read_output_loop
read_output_loop-IsEnd max [] outputs some_room h = IsEnd-refl max outputs h
read_output_loop-IsEnd max (reads ∷ events) outputs some_room h =
    subst (λ r. IsEnd max (outputs ++ pieces (reads ∷ events)) (goes_on max events r))
      (sym (read_event-happened max reads outputs))
      (behind-IsEnd max events outputs some_room h (first_piece reads)
        (λ os. read_output_loop-IsEnd max events os some_room))
