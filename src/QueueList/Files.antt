-- ===== src/QueueList/Files.antt =====
-- model/dao/sqlitequeuelist.cpp: the name that init finds in the path of a file, and the path of the file
-- that a queue opens.
use simple_task_queue.Common.{
  if◌then◌else◌, ℕ, suc, ◌≡◌, refl, ap, ◌≢◌, ◌⊎◌, inl, inr, sym, subst, ◌∙◌, Bool-cases, ◌==◌, none,
  some, [], ◌∷◌, ◌++◌, Str, codes, str_eq, drop, length, take-append, arith, append_assoc, Option,
  str_eq_sound, ◌↔◌, some_inj,
}
use simple_task_queue.QueueList.{
  FileKind, directory, other_file, find_last_of, after_last, before_last, file_queue, regular_file,
}

-- The byte does not stand in the string.
abbrev pub Lacks : ℕ → Str → Type 0
Lacks c [] = Unit {0}
Lacks c (x ∷ s) = (x ≢ c) × Lacks c s

find_last_of-Lacks : (c : ℕ) (s : Str) → Lacks c s → find_last_of c s ≡ none
unfolding find_last_of
find_last_of-Lacks c [] h = refl
find_last_of-Lacks c (x ∷ s) h = rw (find_last_of-Lacks c s h.1) (ground (arith, h.0))

find_last_of-append :
    (c : ℕ) (s t : Str) → Lacks c t → find_last_of c (s ++ c ∷ t) ≡ some (length s)
unfolding find_last_of
find_last_of-append c [] t h = rw (find_last_of-Lacks c t h) (ground arith)
find_last_of-append c (x ∷ s) t h = rw (find_last_of-append c s t h) refl

drop_past : (c : ℕ) (s t : Str) → drop (suc (length s)) (s ++ c ∷ t) ≡ t
unfolding drop
drop_past c [] t = refl
drop_past c (x ∷ s) t = drop_past c s t

after_last-append : (c : ℕ) (s t : Str) → Lacks c t → after_last c (s ++ c ∷ t) ≡ t
unfolding after_last
after_last-append c s t h = rw (after_last, find_last_of-append c s t h) (drop_past c s t)

before_last-append : (c : ℕ) (s t : Str) → Lacks c t → before_last c (s ++ c ∷ t) ≡ s
unfolding before_last
before_last-append c s t h = rw (before_last, find_last_of-append c s t h) (take-append s (c ∷ t))

Lacks-append : (c : ℕ) (s t : Str) → Lacks c s → Lacks c t → Lacks c (s ++ t)
Lacks-append c [] t h k = k
Lacks-append c (x ∷ s) t h k = (h.0, Lacks-append c s t h.1 k)

-- A string without the byte, or split at its last one.
last-cases : (c : ℕ) (s : Str) → Lacks c s ⊎ ((a : Str) × (b : Str) × (s ≡ a ++ c ∷ b) × Lacks c b)
last-cases c [] = inl tt
last-cases c (x ∷ s) = elim (last-cases c s) [
  | inr (a, b, e, l) ↦ inr (x ∷ a, b, ap (λ t. x ∷ t) e, l)
  | inl l ↦ elim (Bool-cases (x == c)) [
    | inl e ↦ inr ([], s, ground arith, l)
    | inr e ↦ inl ((λ g. ground (arith, g)), l)
  ]
]

after_last-Lacks : (c : ℕ) (s : Str) → Lacks c s → after_last c s ≡ s
unfolding after_last
after_last-Lacks c s h = rw (after_last, find_last_of-Lacks c s h) refl

before_last-Lacks : (c : ℕ) (s : Str) → Lacks c s → before_last c s ≡ s
unfolding before_last
before_last-Lacks c s h = rw (before_last, find_last_of-Lacks c s h) refl

-- `file` is what stands behind the last slash of the path.
abbrev IsFileOf : Str → Str → Type 0
IsFileOf file path = Lacks 47 file × ((path ≡ file) ⊎ ((dir : Str) × (path ≡ dir ++ 47 ∷ file)))

-- The database of a queue: its name with `.db`; a file `db` without a dot is taken too.
abbrev pub IsDatabase : Str → Str → Type 0
IsDatabase name path =
    (file : Str) × IsFileOf file path
    × ((file ≡ name ++ codes ".db") ⊎ ((file ≡ codes "db") × (name ≡ codes "db")))

file-cases : (path : Str) → IsFileOf (after_last 47 path) path
file-cases path = elim (last-cases 47 path) [
  | inl l ↦ let e = after_last-Lacks 47 path l in (subst (Lacks 47) (sym e) l, inl (sym e))
  | inr (a, b, g, l) ↦
      let e : after_last 47 path ≡ b = rw g (after_last-append 47 a b l) in
      (subst (Lacks 47) (sym e) l, inr (a, g ∙ ap (λ t. a ++ 47 ∷ t) (sym e)))
]

IsFileOf-after_last : (file path : Str) → IsFileOf file path → after_last 47 path ≡ file
IsFileOf-after_last file path (l, inl e) = rw e (after_last-Lacks 47 file l)
IsFileOf-after_last file path (l, inr (dir, e)) = rw e (after_last-append 47 dir file l)

-- The name in a file with the ending.
abbrev named_in : Str → Option Str
named_in file =
    if str_eq (after_last 46 file) (codes "db") then some (before_last 46 file) else none

db-Lacks : Lacks 46 (codes "db")
db-Lacks = ((λ e. cc e), ((λ e. cc e), tt))

named-ending : (name : Str) → named_in (name ++ codes ".db") ≡ some name
unfolding str_eq
named-ending name =
    rw (after_last-append 46 name (codes "db") db-Lacks)
      (ap some (before_last-append 46 name (codes "db") db-Lacks))

named-db : named_in (codes "db") ≡ some (codes "db")
unfolding str_eq
named-db =
    rw (after_last-Lacks 46 (codes "db") db-Lacks)
      (ap some (before_last-Lacks 46 (codes "db") db-Lacks))

ending-named :
    (name file : Str)
    → named_in file ≡ some name
    → (file ≡ name ++ codes ".db") ⊎ ((file ≡ codes "db") × (name ≡ codes "db"))
ending-named name file h = elim (Bool-cases (str_eq (after_last 46 file) (codes "db"))) [
  | inr e ↦ absurd (cc (rw e at h))
  | inl e ↦
      let ending : after_last 46 file ≡ codes "db" =
        str_eq_sound (after_last 46 file) (codes "db") e in
      let front : before_last 46 file ≡ name = some_inj (rw e at h) in
      elim (last-cases 46 file) [
        | inl l ↦
            let whole : file ≡ codes "db" = sym (after_last-Lacks 46 file l) ∙ ending in
            inr (whole, sym front ∙ before_last-Lacks 46 file l ∙ whole)
        | inr (a, b, g, l) ↦
            let back : b ≡ codes "db" =
              sym (after_last-append 46 a b l) ∙ ap (after_last 46) (sym g) ∙ ending in
            let first : a ≡ name =
              sym (before_last-append 46 a b l) ∙ ap (before_last 46) (sym g) ∙ front in
            inl (g ∙ ap (λ t. a ++ 46 ∷ t) back ∙ ap (λ t. t ++ codes ".db") first)
      ]
]

-- init takes a name from exactly the regular files that are the database of this name.
pub file_queue-IsDatabase :
    (kind : FileKind) (path name : Str)
    → (file_queue kind path ≡ some name) ↔ ((kind ≡ regular_file) × IsDatabase name path)
unfolding file_queue
file_queue-IsDatabase directory path name = ((λ h. absurd (cc h)), (λ h. absurd (cc (h.0))))
file_queue-IsDatabase other_file path name = ((λ h. absurd (cc h)), (λ h. absurd (cc (h.0))))
file_queue-IsDatabase regular_file path name = (
  (λ h. (refl, (after_last 47 path, file-cases path, ending-named name (after_last 47 path) h))),
  (λ h. named h.1),
)
  where
    named : IsDatabase name path → named_in (after_last 47 path) ≡ some name
    named (file, at, inl e) = ap named_in (IsFileOf-after_last file path at ∙ e) ∙ named-ending name
    named (file, at, inr (e, g)) =
        ap named_in (IsFileOf-after_last file path at ∙ e) ∙ named-db ∙ ap some (sym g)

-- Where the file of a queue with a name lies.
abbrev pub database_path : Str → Str → Str
database_path path name = (path ++ codes "/") ++ (name ++ codes ".db")

-- It is the database of the name.
pub database_path-IsDatabase :
    (path name : Str) → Lacks 47 name → IsDatabase name (database_path path name)
database_path-IsDatabase path name h = (
  name ++ codes ".db",
  (
    Lacks-append 47 name (codes ".db") h ((λ e. cc e), ((λ e. cc e), ((λ e. cc e), tt))),
    inr (path, append_assoc path (codes "/") (name ++ codes ".db")),
  ),
  inl refl,
)
