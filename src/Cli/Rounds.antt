-- ===== src/Cli/Rounds.antt =====
-- controller/cli/queue.cpp and queuelist.cpp: the loops in a queue and outside of one end with their
-- lines.
use simple_task_queue.Common.{
  ◌&&◌, str_eq, codes, ℕ, zero, suc, ◌≤◌, ◌<◌, ◌≡◌, refl, Bool, true, false, Bool-cases, inl, inr,
  Option, none, some, List, [], ◌∷◌, Str, is_empty, length, arith, if◌then◌else◌,
}
use simple_task_queue.Exec.{Result, ok, err, hang, Exec, continue}
use simple_task_queue.Cli.{got, IQueue, IQueueList, Session, Parser}
use simple_task_queue.Cli.Args.{tokens}
use simple_task_queue.Cli.Queue.{
  is_nil, run_queue, queue_round, coded, going, queue_command, called_or_invalid,
}
use simple_task_queue.Cli.QueueList.{
  list_command, run_list, list_round, entered, called_or_entered, with_lines, going_on,
}
use simple_task_queue.Cli.Answers.{NoHang, Answers, ListAnswers, Ready}
use simple_task_queue.Cli.Commands.{queue_command-Ready, list_command-Ready}

-- A loop or a round ends with a value, in which no more than `n` lines are left.
abbrev pub Leaves : {A : Type 0} → (A → ℕ) → ℕ → Result A → Type 0
Leaves left n (ok a) = left a ≤ n
Leaves left n (err code) = ⊥
Leaves left n hang = ⊥

abbrev pub lines_of : ℕ × List Str → ℕ
lines_of r = length r.1

abbrev pub lines_in : Option (ℕ × List Str) → ℕ
lines_in none = 0
lines_in (some r) = length r.1

-- There is a value.
abbrev pub Valued : {A : Type 0} → Result A → Type 0
Valued (ok a) = Unit {0}
Valued (err code) = ⊥
Valued hang = ⊥

pub Leaves-le :
    {A : Type 0} (left : A → ℕ) (n m : ℕ) (r : Result A) → n ≤ m → Leaves left n r → Leaves left m r
Leaves-le left n m (ok a) h k = omega arith
Leaves-le left n m (err code) h k = k
Leaves-le left n m hang h k = k

module _ {W : Type 0} where
  coded-Valued : (r : Result (Unit {0}) × Session W) → NoHang r → Valued (coded r).0
  coded-Valued (ok a, s) h = tt
  coded-Valued (err code, s) h = tt
  coded-Valued (hang, s) h = h

  branch-Valued :
      {A : Type 0} (b : Bool) (x y : Result A × Session W)
      → Valued x.0
      → Valued y.0
      → Valued (if b then x else y).0
  branch-Valued true x y h k = h
  branch-Valued false x y h k = k

  branch-Leaves :
      {A : Type 0} (left : A → ℕ) (n : ℕ) (b : Bool) (x y : Result A × Session W)
      → Leaves left n x.0
      → Leaves left n y.0
      → Leaves left n (if b then x else y).0
  branch-Leaves left n true x y h k = h
  branch-Leaves left n false x y h k = k

  module _ (q : IQueue W) (p : Parser) (answers : Answers q) where
    going-Valued : (r : Result ℕ × Session W) → Valued r.0 → Valued (going r).0
    going-Valued (ok ret, s) h = tt
    going-Valued (err code, s) h = h
    going-Valued (hang, s) h = h

    called-Valued :
        (name : Str) (args : List Str) (o : Option (List Str → Exec (Session W) (Unit {0})))
        (s : Session W)
        → Ready o
        → Valued (called_or_invalid q p name args o s).0
    unfolding called_or_invalid
    called-Valued name args none s h = tt
    called-Valued name args (some f) s h = coded-Valued (f args s) (h args s)

    queue_round-Valued : (args : List Str) (s : Session W) → Valued (queue_round q p args s).0
    unfolding queue_round
    queue_round-Valued [] s = tt
    queue_round-Valued (name ∷ more) s =
        branch-Valued (is_nil more && str_eq name (codes "help")) _ _ tt (
          branch-Valued (is_nil more && str_eq name (codes "exit")) _ _ tt (
            going-Valued (called_or_invalid q p name (name ∷ more) (queue_command q p name) s) (
              called-Valued name (name ∷ more) (queue_command q p name) s
                (queue_command-Ready q p answers name))))

    next-Leaves :
        (ret : ℕ) (ls : List Str) (r : Result (Option ℕ) × Session W)
        → Valued r.0
        → ((ret' : ℕ) (s : Session W) → Leaves lines_of (length ls) (run_queue q p ret' ls s).0)
        → Leaves lines_of
            (suc (length ls))
            (continue {B = ℕ × List Str}
              (λ o. elim o [ none ↦ (λ s. (ok (ret, ls), s)) | some ret' ↦ run_queue q p ret' ls ])
              r).0
    next-Leaves ret ls (ok none, s) v h = omega arith
    next-Leaves ret ls (ok (some ret'), s) v h =
        Leaves-le lines_of (length ls) (suc (length ls)) (run_queue q p ret' ls s).0 (omega arith)
          (h ret' s)
    next-Leaves ret ls (err code, s) v h = v
    next-Leaves ret ls (hang, s) v h = v

    run_queue-Leaves :
        (ls : List Str) (ret : ℕ) (s : Session W)
        → Leaves lines_of (length ls) (run_queue q p ret ls s).0
    unfolding run_queue
    run_queue-Leaves [] ret s = omega arith
    run_queue-Leaves (l ∷ ls) ret s = elim (Bool-cases (is_empty l)) [
      | inl e ↦ rw e (
          Leaves-le lines_of (length ls) (suc (length ls)) (run_queue q p ret ls s).0 (omega arith)
            (run_queue-Leaves ls ret s))
      | inr e ↦ rw e (
          next-Leaves ret ls (queue_round q p (tokens l) s) (queue_round-Valued (tokens l) s)
            (λ ret' s'. run_queue-Leaves ls ret' s'))
    ]

  module _ (l : IQueueList W) (p : Parser) (answers : ListAnswers l) where
    entered-Leaves :
        (ls : List Str) (o : Option (IQueue W)) (s : Session W)
        → ((q : IQueue W) → o ≡ some q → Answers q)
        → Leaves lines_of (length ls) (entered l p ls o s).0
    unfolding entered
    entered-Leaves ls none s h = omega arith
    entered-Leaves ls (some q) s h = elim (Bool-cases p.has_cwd) [
      | inl e ↦ rw e (run_queue-Leaves q p (h q refl) ls 0 s)
      | inr e ↦ rw e (omega arith)
    ]

    got-Leaves :
        (ls : List Str) (s : Session W) (r : Option (IQueue W) × W)
        → ((q : IQueue W) → r.0 ≡ some q → Answers q)
        → Leaves lines_of (length ls) (continue (entered l p ls) (got s r)).0
    got-Leaves ls s (o, w) h = entered-Leaves ls o (record s { world = w }) h

    coded-Leaves :
        (ls : List Str) (r : Result (Unit {0}) × Session W)
        → NoHang r
        → Leaves lines_of (length ls) (with_lines ls (coded r)).0
    coded-Leaves ls (ok a, s) h = omega arith
    coded-Leaves ls (err code, s) h = omega arith
    coded-Leaves ls (hang, s) h = h

    called-Leaves :
        (name : Str) (args ls : List Str) (o : Option (List Str → Exec (Session W) (Unit {0})))
        (s : Session W)
        → Ready o
        → Leaves lines_of (length ls) (called_or_entered l p name args ls o s).0
    unfolding called_or_entered
    called-Leaves name args ls none s h =
        got-Leaves ls s (l.get_queue name s.world) (answers.get_queue name s.world)
    called-Leaves name args ls (some f) s h = coded-Leaves ls (f args s) (h args s)

    going_on-Leaves :
        (n : ℕ) (r : Result (ℕ × List Str) × Session W)
        → Leaves lines_of n r.0
        → Leaves lines_in n (going_on r).0
    going_on-Leaves n (ok r, s) h = h
    going_on-Leaves n (err code, s) h = h
    going_on-Leaves n (hang, s) h = h

    list_round-Leaves :
        (args ls : List Str) (s : Session W)
        → Leaves lines_in (length ls) (list_round l p args ls s).0
    unfolding list_round
    list_round-Leaves [] ls s = omega arith
    list_round-Leaves (name ∷ more) ls s =
        branch-Leaves lines_in (length ls) (is_nil more && str_eq name (codes "help")) _ _
          (omega arith)
          (branch-Leaves lines_in (length ls) (is_nil more && str_eq name (codes "exit")) _ _
            (omega arith)
            (going_on-Leaves (length ls)
              (called_or_entered l p name (name ∷ more) ls (list_command l p name) s)
              (called-Leaves name (name ∷ more) ls (list_command l p name) s
                (list_command-Ready l p answers name))))

    rounds-Leaves :
        (rounds ret : ℕ) (ls : List Str) (r : Result (Option (ℕ × List Str)) × Session W)
        → Leaves lines_in (length ls) r.0
        → ((ret' : ℕ) (rest : List Str) (s : Session W)
            → length rest ≤ length ls
            → Leaves lines_of (length rest) (run_list l p rounds ret' rest s).0)
        → Leaves lines_of
            (suc (length ls))
            (continue {B = ℕ × List Str}
              (λ o. elim o [
                | none ↦ (λ s. (ok (ret, ls), s))
                | some (ret', rest) ↦ run_list l p rounds ret' rest
              ])
              r).0
    rounds-Leaves rounds ret ls (ok none, s) h k = omega arith
    rounds-Leaves rounds ret ls (ok (some (ret', rest)), s) h k =
        Leaves-le lines_of (length rest) (suc (length ls)) (run_list l p rounds ret' rest s).0
          (omega arith) (k ret' rest s h)
    rounds-Leaves rounds ret ls (err code, s) h k = h
    rounds-Leaves rounds ret ls (hang, s) h k = h

    -- The loop outside of a queue ends if it has more rounds than there are lines.
    pub run_list-Leaves :
        (rounds ret : ℕ) (ls : List Str) (s : Session W)
        → length ls < rounds
        → Leaves lines_of (length ls) (run_list l p rounds ret ls s).0
    unfolding run_list
    run_list-Leaves zero ret ls s h = absurd (omega arith)
    run_list-Leaves (suc rounds) ret [] s h = omega arith
    run_list-Leaves (suc rounds) ret (x ∷ ls) s h = elim (Bool-cases (is_empty x)) [
      | inl e ↦ rw e (
          Leaves-le lines_of (length ls) (suc (length ls)) (run_list l p rounds ret ls s).0
            (omega arith) (run_list-Leaves rounds ret ls s (omega arith)))
      | inr e ↦ rw e (
          rounds-Leaves rounds ret ls (list_round l p (tokens x) ls s)
            (list_round-Leaves (tokens x) ls s)
            (λ ret' rest s' le. run_list-Leaves rounds ret' rest s' (omega arith)))
    ]
