-- ===== src/Setup/Config.antt =====
-- controller/grpcserver/config.cpp and init.cpp: the configuration of the server. A result `ok` is the
-- code 0, `err 1` an error and `err 2` that the program has only shown its help or its version.
use simple_task_queue.Common.{
  ℕ, ltb, ◌==◌, if◌then◌else◌, Option, none, some, List, Str, is_empty, ℤ, length,
}
use simple_task_queue.Exec.{Result, ok, err, Exec, pure, fail, require, recode, ◌>>=◌, ◌>>◌}
use simple_task_queue.Cli.{Parsed, threw, helped, parsed}
use simple_task_queue.Setup.Address.{verify_ip}
use simple_task_queue.Setup.Dirs.{Files, verify_dir, verify_file}

-- The port has 16 bits in the source.
pub record ServerConfig : Type 0 where
  pub db_path : Str
  pub log_path : Str
  pub listen_port : ℕ
  pub listen_ip : Str
  pub log_level : ℤ

-- The fields of the configuration file, `none` where one is missing or has another type.
pub record Yaml : Type 0 where
  pub db_path : Option Str
  pub log_path : Option Str
  pub port : Option ℕ
  pub ip : Option Str
  pub log_level : Option ℤ

-- The current directory, if getcwd gives it; what cxxopts makes of the arguments, which it writes to the
-- configuration, with the path of the configuration file; and what yaml-cpp reads from a file.
pub record Sources (F : Files) : Type 0 where
  pub cwd : Option Str
  pub options : List Str → Str → ServerConfig → Parsed Str × ServerConfig
  pub load_file : Str → F.Disk → Option Yaml

-- The configuration that is filled in, and the disk.
pub record Boot (F : Files) : Type 0 where
  pub config : ServerConfig
  pub disk : F.Disk

module _ {F : Files} where
  abbrev pub put_disk : {A : Type 0} → Boot F → Result A × F.Disk → Result A × Boot F
  put_disk b (r, d) = (r, record b { disk = d })

  abbrev pub on_disk : {A : Type 0} → (F.Disk → Result A × F.Disk) → Exec (Boot F) A
  on_disk m b = put_disk b (m b.disk)

  abbrev set_config : (ServerConfig → ServerConfig) → Exec (Boot F) (Unit {0})
  set_config f b = (ok tt, record b { config = f b.config })

  -- `config["..."].as<...>()`, which throws where it cannot.
  abbrev field : {A : Type 0} → Option A → Exec (Boot F) A
  field none = fail 1
  field (some a) = pure a

  abbrev check_ip : Str → Exec (Boot F) (Unit {0})
  check_ip ip = require (verify_ip ip == 0) 1

  -- The second parse, on what the file holds: behind the log path, and from the beginning.
  unfoldable pub parse_address : Yaml → Exec (Boot F) (Unit {0})
  parse_address y = do
    port ← field y.port
    set_config (λ c. record c { listen_port = port })
    ip ← field y.ip
    set_config (λ c. record c { listen_ip = ip })
    check_ip ip
    level ← field y.log_level
    set_config (λ c. record c { log_level = level })

  unfoldable pub parse_yaml : Option Yaml → Exec (Boot F) (Unit {0})
  unfolding parse_address
  parse_yaml none = fail 1
  parse_yaml (some y) = do
    db ← field y.db_path
    set_config (λ c. record c { db_path = db })
    log ← field y.log_path
    set_config (λ c. record c { log_path = log })
    on_disk (verify_dir F log)
    parse_address y

  module _ (s : Sources F) where
    unfoldable pub parse_file : Str → Exec (Boot F) (Unit {0})
    unfolding parse_yaml
    parse_file path b = recode 1 (parse_yaml (s.load_file path b.disk) b)

    unfoldable pub check_config_file : Str → Exec (Boot F) (Unit {0})
    check_config_file path = if is_empty path then pure tt else on_disk (verify_file F path)

    unfoldable pub check_log_path : Exec (Boot F) (Unit {0})
    check_log_path b =
        if is_empty b.config.log_path
        then (ok tt, b)
        else on_disk (verify_dir F b.config.log_path) b

    unfoldable pub check_port : Exec (Boot F) (Unit {0})
    check_port b = if ltb 65535 b.config.listen_port then (err 1, b) else (ok tt, b)

    unfoldable pub check_listen_ip : Exec (Boot F) (Unit {0})
    check_listen_ip b = check_ip b.config.listen_ip b

    unfoldable pub use_config_file : Str → Exec (Boot F) (Unit {0})
    unfolding parse_file
    use_config_file path = if is_empty path then pure tt else parse_file path

    unfoldable pub with_options_of : F.Disk → Parsed Str × ServerConfig → Result (Unit {0}) × Boot F
    unfolding check_config_file check_log_path check_port check_listen_ip use_config_file
    with_options_of d (threw what, config) = (err 1, record { config = config; disk = d })
    with_options_of d (helped, config) = (err 2, record { config = config; disk = d })
    with_options_of d (parsed path, config) =
        (do
          check_config_file path
          check_log_path
          check_port
          check_listen_ip
          use_config_file path)
          (record { config = config; disk = d })

    unfoldable pub parse_in : Str → List Str → Exec (Boot F) (Unit {0})
    unfolding with_options_of
    parse_in cwd argv b =
        if length argv == 1
        then (ok tt, record b { config = record b.config { db_path = cwd; log_path = cwd } })
        else with_options_of b.disk (s.options argv cwd b.config)

    -- Config::parse on the arguments of the program.
    unfoldable pub parse_config : List Str → Exec (Boot F) (Unit {0})
    unfolding parse_in
    parse_config argv = elim s.cwd [ none ↦ fail 1 | some cwd ↦ parse_in cwd argv ]
