-- ===== src/Builder/Llb.antt =====
-- What internal/builder calls of BuildKit's library for build definitions, of package path, and of the formatting of durations.
use cicada.Base.{ℕ, ℤ, String, List, Option}

pub record Llb : Type 1 where
  pub State : Type 0
  pub Definition : Type 0
  pub ImageOption : Type 0
  pub RunOption : Type 0
  pub MountOption : Type 0
  pub LocalOption : Type 0
  -- A state with a command to run, its file system behind it, and one of its mounts.
  pub Exec : Type 0
  pub run : State → List RunOption → Exec
  pub root : Exec → State
  pub get_mount : Exec → String → State
  pub image : String → List ImageOption → State
  pub scratch : State
  pub local_dir : String → List LocalOption → State
  pub set_dir : State → String → State
  pub add_env : State → String → String → State
  pub make_dir : State → String → ℕ → State
  pub make_file : State → String → ℕ → State
  pub copy : State → State → String → String → State
  pub marshal : State → Option Definition
  -- `platforms.Parse`, as an option of an image.
  pub parse_platform : String → Option ImageOption
  pub ignore_cache_image : ImageOption
  pub ignore_cache_run : RunOption
  pub run_args : List String → RunOption
  pub custom_name : String → RunOption
  pub add_mount : String → State → List MountOption → RunOption
  pub source_path : String → MountOption
  pub read_only : MountOption
  pub persistent_cache_dir : String → MountOption
  -- `AddSecretWithDest` with an env name, and `AddSecret` at a path.
  pub secret_env : String → String → RunOption
  pub secret_mount : String → String → RunOption
  pub shared_key_hint : String → LocalOption
  pub exclude_patterns : List String → LocalOption
  pub path_clean : String → String
  pub path_base : String → String
  pub format_seconds : ℤ → String
