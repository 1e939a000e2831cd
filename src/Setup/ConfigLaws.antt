-- ===== src/Setup/ConfigLaws.antt =====
-- A configuration that was accepted.
use simple_task_queue.Common.{
  ℕ, ◌≡◌, ◌⊎◌, refl, inl, inr, true, false, Bool-cases, Option-cases, ◌==◌, ltb, Option, none, some,
  List, [], ◌∷◌, Str, is_empty, length, arith,
}
use simple_task_queue.Exec.{Result, ok, err, hang, Ends, Ends-continue, Ends-mono, recode}
use simple_task_queue.Cli.{Parsed, threw, helped, parsed}
use simple_task_queue.Setup.Address.{verify_ip}
use simple_task_queue.Setup.Dirs.{Files, Creates, verify_dir, verify_file, verify_dir-Ends}
use simple_task_queue.Setup.Config.{
  ServerConfig, Yaml, Sources, Boot, parse_address, parse_yaml, parse_file, check_config_file,
  check_log_path, check_port, check_listen_ip, use_config_file, with_options_of, parse_in,
  parse_config, put_disk, on_disk,
}

-- The log goes nowhere or to a directory that is there.
abbrev HasLog : {F : Files} → Boot F → Type 0
HasLog {F} b = (b.config.log_path ≡ []) ⊎ (F.is_directory b.config.log_path b.disk ≡ true)

abbrev pub IsUsable : {F : Files} → Boot F → Type 0
IsUsable b = (verify_ip b.config.listen_ip ≡ 0) × HasLog b

empty_nil : (s : Str) → is_empty s ≡ true → s ≡ []
empty_nil [] h = refl
empty_nil (c ∷ s) h = absurd (cc h)

is_zero : (n : ℕ) → (n == 0) ≡ true → n ≡ 0
is_zero n h = ground arith

file-Ends :
    (F : Files) (path : Str) (d : F.Disk)
    → Ends (λ c d'. c ≡ 1) (λ _ d'. Unit {0}) (verify_file F path d)
unfolding verify_file
file-Ends F path d = elim (Bool-cases (is_empty path)) [
  | inl e ↦ rw e refl
  | inr e ↦ rw e (elim (Bool-cases (F.exists path d)) [
    | inr g ↦ rw g refl
    | inl g ↦
        rw g (elim (Bool-cases (F.is_regular_file path d)) [ inl k ↦ rw k tt | inr k ↦ rw k refl ])
  ])
]

module _ {F : Files} (creates : Creates F) where
  address-IsUsable :
      (y : Yaml) (b : Boot F)
      → HasLog b
      → Ends (λ c b'. c ≡ 1) (λ _ b'. IsUsable b') (parse_address y b)
  unfolding parse_address
  address-IsUsable y b log = elim (Option-cases y.port) [
    | inl e ↦ rw e refl
    | inr (port, e) ↦ rw e (elim (Option-cases y.ip) [
      | inl g ↦ rw g refl
      | inr (ip, g) ↦ rw g (elim (Bool-cases (verify_ip ip == 0)) [
        | inr k ↦ rw k refl
        | inl k ↦ rw k (elim (Option-cases y.log_level) [
          | inl m ↦ rw m refl
          | inr (level, m) ↦ rw m (is_zero (verify_ip ip) k, log)
        ])
      ])
    ])
  ]

  -- Behind a check of the directory of the log.
  log_checked :
      (b : Boot F) (r : Result (Unit {0}) × F.Disk)
      → Ends (λ c d. c ≡ 1) (λ _ d. F.is_directory b.config.log_path d ≡ true) r
      → Ends (λ c b'. c ≡ 1) (λ _ b'. HasLog b') (put_disk b r)
  log_checked b (ok x, d) h = inr h
  log_checked b (err c, d) h = h
  log_checked b (hang, d) h = h

  yaml-IsUsable :
      (o : Option Yaml) (b : Boot F) → Ends (λ c b'. c ≡ 1) (λ _ b'. IsUsable b') (parse_yaml o b)
  unfolding parse_yaml
  yaml-IsUsable none b = refl
  yaml-IsUsable (some y) b = elim (Option-cases y.db_path) [
    | inl e ↦ rw e refl
    | inr (db, e) ↦ rw e (elim (Option-cases y.log_path) [
      | inl g ↦ rw g refl
      | inr (log, g) ↦ rw g (
          Ends-continue {A = Unit {0}} (λ c b'. c ≡ 1) (λ _ b'. HasLog b') (λ _ b'. IsUsable b')
            (λ _. parse_address y)
            (on_disk (verify_dir F log)
              (record b { config = record b.config { db_path = db; log_path = log } }))
            (log_checked (record b { config = record b.config { db_path = db; log_path = log } })
              (verify_dir F log b.disk) (verify_dir-Ends F creates log b.disk))
            (λ _ b' h. address-IsUsable y b' h))
    ])
  ]

  recode-IsUsable :
      (r : Result (Unit {0}) × Boot F)
      → Ends (λ c b'. c ≡ 1) (λ _ b'. IsUsable b') r
      → Ends (λ c b'. c ≡ 1) (λ _ b'. IsUsable b') (recode 1 r)
  recode-IsUsable (ok x, b) h = h
  recode-IsUsable (err c, b) h = refl
  recode-IsUsable (hang, b) h = h

  put-Ends :
      (b : Boot F) (r : Result (Unit {0}) × F.Disk)
      → Ends (λ c d. c ≡ 1) (λ _ d. Unit {0}) r
      → Ends (λ c b'. c ≡ 1) (λ _ b'. Unit {0}) (put_disk b r)
  put-Ends b (ok x, d) h = tt
  put-Ends b (err c, d) h = h
  put-Ends b (hang, d) h = h

  module _ (s : Sources F) where
    config_file-Ends :
        (path : Str) (b : Boot F)
        → Ends (λ c b'. c ≡ 1) (λ _ b'. Unit {0}) (check_config_file s path b)
    unfolding check_config_file
    config_file-Ends path b = elim (Bool-cases (is_empty path)) [
      | inl e ↦ rw e tt
      | inr e ↦ rw e (put-Ends b (verify_file F path b.disk) (file-Ends F path b.disk))
    ]

    log_path-HasLog : (b : Boot F) → Ends (λ c b'. c ≡ 1) (λ _ b'. HasLog b') (check_log_path s b)
    unfolding check_log_path
    log_path-HasLog b = elim (Bool-cases (is_empty b.config.log_path)) [
      | inl e ↦ rw e (inl (empty_nil b.config.log_path e))
      | inr e ↦ rw e (
          log_checked b (verify_dir F b.config.log_path b.disk)
            (verify_dir-Ends F creates b.config.log_path b.disk))
    ]

    port-HasLog :
        (b : Boot F) → HasLog b → Ends (λ c b'. c ≡ 1) (λ _ b'. HasLog b') (check_port s b)
    unfolding check_port
    port-HasLog b h = elim (Bool-cases (ltb 65535 b.config.listen_port)) [
      | inl e ↦ rw e refl
      | inr e ↦ rw e h
    ]

    ip-IsUsable :
        (b : Boot F) → HasLog b → Ends (λ c b'. c ≡ 1) (λ _ b'. IsUsable b') (check_listen_ip s b)
    unfolding check_listen_ip
    ip-IsUsable b h = elim (Bool-cases (verify_ip b.config.listen_ip == 0)) [
      | inr k ↦ rw k refl
      | inl k ↦ rw k (is_zero (verify_ip b.config.listen_ip) k, h)
    ]

    use-IsUsable :
        (path : Str) (b : Boot F)
        → IsUsable b
        → Ends (λ c b'. c ≡ 1) (λ _ b'. IsUsable b') (use_config_file s path b)
    unfolding use_config_file parse_file
    use-IsUsable path b h = elim (Bool-cases (is_empty path)) [
      | inl e ↦ rw e h
      | inr e ↦ rw e (
          recode-IsUsable (parse_yaml (s.load_file path b.disk) b)
            (yaml-IsUsable (s.load_file path b.disk) b))
    ]

    options-IsUsable :
        (d : F.Disk) (r : Parsed Str × ServerConfig)
        → Ends (λ c b. (c ≡ 1) ⊎ (c ≡ 2)) (λ _ b. IsUsable b) (with_options_of s d r)
    unfolding with_options_of
    options-IsUsable d (threw what, config) = inl refl
    options-IsUsable d (helped, config) = inr refl
    options-IsUsable d (parsed path, config) =
        let b : Boot F = record { config = config; disk = d } in
        Ends-mono {A = Unit {0}} (λ c _. c ≡ 1) (λ c _. (c ≡ 1) ⊎ (c ≡ 2)) (λ _ b. IsUsable b)
          (λ _ b. IsUsable b) _
          (Ends-continue {A = Unit {0}} (λ c _. c ≡ 1) (λ _ _. Unit {0}) (λ _ b. IsUsable b) _
            (check_config_file s path b) (config_file-Ends path b)
            (λ _ b1 h1.
              Ends-continue {A = Unit {0}} (λ c _. c ≡ 1) (λ _ b. HasLog b) (λ _ b. IsUsable b) _
                (check_log_path s b1) (log_path-HasLog b1)
                (λ _ b2 h2.
                  Ends-continue {A = Unit {0}} (λ c _. c ≡ 1) (λ _ b. HasLog b) (λ _ b. IsUsable b)
                    _ (check_port s b2) (port-HasLog b2 h2)
                    (λ _ b3 h3.
                      Ends-continue {A = Unit {0}} (λ c _. c ≡ 1) (λ _ b. IsUsable b)
                        (λ _ b. IsUsable b) _ (check_listen_ip s b3) (ip-IsUsable b3 h3)
                        (λ _ b4 h4. use-IsUsable path b4 h4)))))
          (λ c b h. inl h) (λ _ b h. h)

    -- The server's arguments, other than none at all, on a file system where a directory that was created
    -- is there: they are refused with 1, or with 2 where only the help or the version was shown; or
    -- they give an address that verifyIP accepts, and a log path that is empty or a directory that is
    -- there, whatever the arguments and the configuration file hold.
    pub parse_config-IsUsable :
        (argv : List Str) (b : Boot F)
        → (length argv == 1) ≡ false
        → Ends (λ c b. (c ≡ 1) ⊎ (c ≡ 2)) (λ _ b. IsUsable b) (parse_config s argv b)
    unfolding parse_config parse_in
    parse_config-IsUsable argv b many = elim (Option-cases s.cwd) [
      | inl e ↦ rw e (inl refl)
      | inr (cwd, e) ↦ rw (e, many) (options-IsUsable b.disk (s.options argv cwd b.config))
    ]
