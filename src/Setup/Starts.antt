-- ===== src/Setup/Starts.antt =====
-- controller/grpcserver/init.cpp: what the server has when it starts.
use simple_task_queue.Common.{
  ℕ, zero, suc, ◌≢◌, ◌↔◌, ap, false, [], ◌∷◌, ◌++◌, is_empty, arith, ◌≡◌, ◌==◌, ◌⊎◌, refl, inl, inr,
  Bool, true, Bool-cases, Option-cases, Option, none, some, List, Str, length,
}
use simple_task_queue.Exec.{Result, ok, err, hang, Ends, Ends-continue, Ends-mono}
use simple_task_queue.Sqlite.{Sqlite}
use simple_task_queue.Process.{Process}
use simple_task_queue.Queue.{Queue}
use simple_task_queue.QueueList.{QueueList, FileKind, get_queue, init_list}
use simple_task_queue.QueueList.Laws.{IsSound, is_some}
use simple_task_queue.QueueList.Scan.{HasFile, InitEnds, init_list-InitEnds}
use simple_task_queue.Setup.Address.{verify_ip}
use simple_task_queue.Setup.Dirs.{Files, Creates, verify_dir, verify_dir-Ends}
use simple_task_queue.Setup.Database.{
  sqlite_init, sqlite_start_connect, opened, list_if_ok, is_ok, emptied, without_slash,
  checked_base,
}
use simple_task_queue.Setup.Config.{Sources, Boot, parse_config, parse_in}
use simple_task_queue.Setup.ConfigLaws.{IsUsable, parse_config-IsUsable}
use simple_task_queue.Setup.Server.{
  init_server, log_opened, logged, spdlog_init, log_file, help_or_error, put_list,
}

abbrev pub HasAddress : {F : Files} → Boot F → Type 0
HasAddress b = verify_ip b.config.listen_ip ≡ 0

-- The target path without a slash at its end.
abbrev IsBase : Str → Str → Type 0
IsBase base target =
    (target ≡ base ++ 47 ∷ []) ⊎ ((target ≡ base) × ((p : Str) → target ≢ p ++ 47 ∷ []))

nothing_ends : (p : Str) → ◌≢◌ {A = Str} [] (p ++ 47 ∷ [])
nothing_ends [] e = cc e
nothing_ends (x ∷ p) e = cc e

one_ends : (c : ℕ) → (c == 47) ≡ false → (p : Str) → c ∷ [] ≢ p ++ 47 ∷ []
one_ends c h [] e = let same : c ≡ 47 = cc e in ground (arith, same, h)
one_ends c h (x ∷ p) e = nothing_ends p (cc e)

more_ends :
    (c d : ℕ) (s : Str)
    → ((p : Str) → d ∷ s ≢ p ++ 47 ∷ [])
    → (p : Str) → c ∷ (d ∷ s) ≢ p ++ 47 ∷ []
more_ends c d s h [] e = cc e
more_ends c d s h (x ∷ p) e = h p (cc e)

without_slash-IsBase : (target : Str) → IsBase (without_slash target) target
unfolding without_slash
without_slash-IsBase [] = inr (refl, nothing_ends)
without_slash-IsBase (c ∷ []) = elim (Bool-cases (c == 47)) [
  | inl e ↦ rw e (inl (ground arith))
  | inr e ↦ rw e (inr (refl, one_ends c e))
]
without_slash-IsBase (c ∷ (d ∷ s)) = elim (without_slash-IsBase (d ∷ s)) [
  | inl e ↦ inl (ap (λ t. c ∷ t) e)
  | inr (e, h) ↦ inr (ap (λ t. c ∷ t) e, more_ends c d s h)
]

module _ (F : Files) where
  -- The path that startConnect keeps.
  abbrev KeepsBase : Str → Result Str × F.Disk → Type 0
  KeepsBase target (ok base, d) = IsBase base target
  KeepsBase target (err c, d) = Unit {0}
  KeepsBase target (hang, d) = Unit {0}

  checked-KeepsBase :
      (target base : Str) (r : Result (Unit {0}) × F.Disk)
      → IsBase base target
      → KeepsBase target (checked_base base r)
  unfolding checked_base
  checked-KeepsBase target base (ok x, d) h = h
  checked-KeepsBase target base (err c, d) h = tt
  checked-KeepsBase target base (hang, d) h = tt

  start_connect-KeepsBase :
      (target : Str) (d : F.Disk) → KeepsBase target (sqlite_start_connect F target d)
  unfolding sqlite_start_connect
  start_connect-KeepsBase target d = elim (Bool-cases (is_empty target)) [
    | inl e ↦ rw e tt
    | inr e ↦ rw e (
        checked-KeepsBase target (without_slash target) (verify_dir F (without_slash target) d)
          (without_slash-IsBase target))
  ]

  module _ {S : Sqlite} {P : Process}
      (entries : Str → F.Disk → List (FileKind × Str × Option P.State)) where
    -- The directory of a target path is there, and the list has one queue for each database file in it,
    -- and no other.
    abbrev ServedAt : Str → QueueList S P → F.Disk → Type 0
    ServedAt target l d =
        (base : Str) × IsBase base target
        × (F.is_directory base d ≡ true)
        × IsSound l
        × ((k : Str) → (is_some (get_queue k l) ≡ true) ↔ HasFile k (entries base d))

    abbrev pub IsServed : QueueList S P → Boot F → Type 0
    IsServed l b = ServedAt b.config.db_path l b.disk

    abbrev IfServed : Str → Option (QueueList S P) × F.Disk → Type 0
    IfServed target (none, d) = Unit {0}
    IfServed target (some l, d) = ServedAt target l d

    listed-IfServed :
        (target base : Str) (d : F.Disk) (r : Result (Unit {0}) × QueueList S P)
        → IsBase base target
        → F.is_directory base d ≡ true
        → InitEnds (entries base d) emptied r
        → IfServed target (list_if_ok d r)
    unfolding list_if_ok
    listed-IfServed target base d (ok x, l) at there h = (base, at, there, h.0, h.1)
    listed-IfServed target base d (err c, l) at there h = tt
    listed-IfServed target base d (hang, l) at there h = tt

    module _ (blank : Queue S P) (creates : Creates F) where
      checked-IfServed :
          (target base : Str) (r : Result (Unit {0}) × F.Disk)
          → IsBase base target
          → Ends (λ c d. c ≡ 1) (λ _ d. F.is_directory base d ≡ true) r
          → IfServed target
              (list_if_ok r.1 (init_list blank (some base) (is_ok r) (entries base r.1) emptied))
      unfolding list_if_ok is_ok init_list
      checked-IfServed target base (ok x, d) at there =
          listed-IfServed target base d _ at there
            (init_list-InitEnds blank (some base) true (entries base d) emptied)
      checked-IfServed target base (err c, d) at h = tt
      checked-IfServed target base (hang, d) at h = tt

      opened-IfServed :
          (target : Str) (r : Result Str × F.Disk)
          → KeepsBase target r
          → IfServed target (opened F blank entries r)
      unfolding opened
      opened-IfServed target (ok base, d) at =
          checked-IfServed target base (verify_dir F base d) at (verify_dir-Ends F creates base d)
      opened-IfServed target (err c, d) at = tt
      opened-IfServed target (hang, d) at = tt

      sqlite_init-IfServed :
          (target : Str) (d : F.Disk) → IfServed target (sqlite_init F blank entries target d)
      unfolding sqlite_init
      sqlite_init-IfServed target d =
          opened-IfServed target (sqlite_start_connect F target d)
            (start_connect-KeepsBase target d)

      put_list-Ends :
          (b : Boot F) (r : Option (QueueList S P) × F.Disk)
          → HasAddress b
          → IfServed b.config.db_path r
          → Ends (λ c _. (c ≡ 1) ⊎ (c ≡ 2)) (λ l b'. IsServed l b' × HasAddress b') (put_list b r)
      put_list-Ends b (none, d) ip h = inl refl
      put_list-Ends b (some l, d) ip h = (h, ip)

      module _ (opens : Str → Bool) (s : Sources F) where
        logged-Ends :
            (l : QueueList S P) (n : ℕ) (b : Boot F)
            → IsServed l b × HasAddress b
            → Ends (λ c _. (c ≡ 1) ⊎ (c ≡ 2)) (λ l b'. IsServed l b' × HasAddress b') (logged l n b)
        unfolding logged
        logged-Ends l zero b h = h
        logged-Ends l (suc n) b h = inl refl

        log_opened-Ends :
            (l : QueueList S P) (b : Boot F)
            → IsServed l b × HasAddress b
            → Ends
                (λ c _. (c ≡ 1) ⊎ (c ≡ 2))
                (λ l b'. IsServed l b' × HasAddress b')
                (log_opened blank entries opens s l b)
        unfolding log_opened
        log_opened-Ends l b h = logged-Ends l (spdlog_init opens (log_file b.config.log_path)) b h

        help-Ends :
            (r : Result (Unit {0}) × Boot F)
            → Ends (λ c b. (c ≡ 1) ⊎ (c ≡ 2)) (λ _ b. HasAddress b) r
            → Ends (λ c b. (c ≡ 1) ⊎ (c ≡ 2)) (λ _ b. HasAddress b) (help_or_error r)
        help-Ends (ok x, b) h = h
        help-Ends (err zero, b) h = inl refl
        help-Ends (err (suc zero), b) h = inl refl
        help-Ends (err (suc (suc zero)), b) h = inr refl
        help-Ends (err (suc (suc (suc n))), b) h = inl refl
        help-Ends (hang, b) h = h

        parse_config-HasAddress :
            (argv : List Str) (b : Boot F)
            → HasAddress b
            → Ends (λ c b. (c ≡ 1) ⊎ (c ≡ 2)) (λ _ b. HasAddress b) (parse_config s argv b)
        unfolding parse_config parse_in
        parse_config-HasAddress argv b ip = elim (Bool-cases (length argv == 1)) [
          | inr many ↦
              Ends-mono {A = Unit {0}} (λ c b. (c ≡ 1) ⊎ (c ≡ 2)) (λ c b. (c ≡ 1) ⊎ (c ≡ 2))
                (λ _ b. IsUsable b) (λ _ b. HasAddress b) _
                (parse_config-IsUsable creates s argv b many) (λ c b h. h) (λ _ b h. h.0)
          | inl one ↦ elim (Option-cases s.cwd) [
            | inl e ↦ rw e (inl refl)
            | inr (cwd, e) ↦ rw (e, one) ip
          ]
        ]

        -- Whatever the arguments, the configuration file and the directory hold, on a file system where a
        -- directory that was created is there, and with an address in the configuration at first that
        -- verifyIP accepts: init ends with the code 1, or with 2; or it ends with a configuration and a
        -- list of queues. Then the address is one that verifyIP accepts; the path for the databases,
        -- without a slash at its end, is a directory that is there; and a name has a queue exactly if
        -- this directory has a regular file called as the name with `.db` behind it, or, for the name
        -- `db`, a regular file `db`. No name stands twice.
        pub init_server-IsServed :
            (argv : List Str) (b : Boot F)
            → HasAddress b
            → Ends
                (λ c _. (c ≡ 1) ⊎ (c ≡ 2))
                (λ l b'. IsServed l b' × HasAddress b')
                (init_server blank entries opens s argv b)
        unfolding init_server
        init_server-IsServed argv b ip =
            Ends-continue {A = Unit {0}} (λ c _. (c ≡ 1) ⊎ (c ≡ 2)) (λ _ b. HasAddress b)
              (λ l b'. IsServed l b' × HasAddress b') _ (help_or_error (parse_config s argv b))
              (help-Ends (parse_config s argv b) (parse_config-HasAddress argv b ip))
              (λ _ b1 ip1.
                Ends-continue {A = QueueList S P} (λ c _. (c ≡ 1) ⊎ (c ≡ 2))
                  (λ l b'. IsServed l b' × HasAddress b') (λ l b'. IsServed l b' × HasAddress b') _
                  (put_list b1 (sqlite_init F blank entries b1.config.db_path b1.disk))
                  (put_list-Ends b1 _ ip1 (sqlite_init-IfServed b1.config.db_path b1.disk))
                  (λ l b2 h. log_opened-Ends l b2 h))
