-- ===== src/Config/Reading.antt =====
-- The reading of the configuration in acmed/src/config.rs: a file, the files that it includes, and
-- the directories that the program needs. Nothing bounds the depth of the files in the source, so
-- it is fuel here. A path is its text.
use acmed.Base.{
  ℕ, zero, suc, String, ◌<>◌, Bool, true, false, Option, none, some, List, [], ◌∷◌, contains, code,
  single, ◌==◌, number_eq, string_eq, if◌then◌else◌, is_empty,
}
use acmed.Base.Result
use acmed.Base.Result.{Result, ok, err, panic}
use acmed.Base.Exec.{Exec, pure, lift, gets, modify, ◌>>=◌, ◌>>◌, map_err}
use acmed.Error.{Error, prefix, from_io, from_glob, from_toml}
use acmed.World.{World, made_dir}
use acmed.World.Env.{Env, read}
use acmed.World.Io
use acmed.World.Io.{Io, open_file, attempt_io, check_io}
use acmed.World.System.{System}
use acmed.Storage.Paths.{push}
use acmed.Config.Types
use acmed.Config.Types.{Config}
use acmed.Config.Toml.{from_str}
use acmed.Config.Merge.{empty_config, append, dispatch_global_env_vars}
use acmed.Config.Sections.{get_account_dir, get_crt_dir}

-- `loaded_files`, beside the world
pub record Reading : Type 0 where
  pub world : World
  pub loaded_files : List String

abbrev pub on_world : {A : Type 0} → Io A → Exec Reading Error A
on_world m s = let (r, w) = m s.world in (r, record s { world = w })

-- the text before the last slash
abbrev or_start : Option String → String → Bool → Option String
or_start (some p) c slash = some (c <> p)
or_start none c true = some ""
or_start none c false = none

unfoldable pub before_slash : String → Option String
before_slash String.[] = none
before_slash (String.◌∷◌ c s) = or_start (before_slash s) (single c) (code c == b'/')

-- `PathBuf::pop` on a canonical path, which starts with a slash
unfoldable pub pop : String → String
pop path = elim (before_slash path) [ some p ↦ if is_empty p then "/" else p | none ↦ "" ]

module _ (env : Env) (sys : System) where
  -- A path is its text, which is UTF-8.
  unfoldable pub get_cnf_path : String → String → Exec Reading Error (List String)
  get_cnf_path from file = do
    found ← gets (λ s. sys.canonicalize s.world from)
    path ← lift (Result.map_err from_io found)
    let raw_path = push (pop path) file
    g ← gets (λ s. sys.glob s.world raw_path)
    lift (Result.map_err from_glob g)

  -- `File::open` and `read_to_string`
  unfoldable pub read_contents : String → Io String
  read_contents path = do
    raw ← open_file env path
    attempt_io env (read path)
    lift (Result.map_err from_io (sys.read_text raw))

  module _ (read_file : String → Exec Reading Error Config) where
    unfoldable pub add_files : Config → List String → Exec Reading Error Config
    add_files config [] = pure config
    add_files config (cnf_path ∷ paths) = do
      add_cnf ← read_file cnf_path
      add_files (append config add_cnf) paths

    unfoldable pub add_included : String → Config → List String → Exec Reading Error Config
    add_included path config [] = pure config
    add_included path config (cnf_name ∷ names) = do
      paths ← get_cnf_path path cnf_name
      config ← add_files config paths
      add_included path config names

    -- a file that is not loaded yet
    unfoldable pub load_file : String → Exec Reading Error Config
    load_file path = do
      modify (λ s. record s { loaded_files = path ∷ s.loaded_files })
      contents ← map_err (prefix path) (on_world (read_contents path))
      config ← lift (Result.map_err (λ e. prefix path (from_toml e)) (from_str sys contents))
      add_included path config config.included

    unfoldable pub load_once : String → Bool → Exec Reading Error Config
    load_once path true = pure empty_config
    load_once path false = load_file path

    unfoldable pub read_path : String → Exec Reading Error Config
    read_path path = do
      found ← gets (λ s. sys.canonicalize s.world path)
      path ← lift (Result.map_err (λ e. prefix path (from_io e)) found)
      loaded ← gets (λ s. contains s.loaded_files path)
      load_once path loaded

  -- Fuel that runs out stands for a stack that does.
  unfoldable pub read_cnf : ℕ → String → Exec Reading Error Config
  read_cnf zero path = lift (panic "stack overflow")
  read_cnf (suc depth) path = read_path (read_cnf depth) path

  make_dir : Bool → String → Io (Unit {0})
  make_dir true path = pure tt
  make_dir false path = do
    failed ← gets (λ w. sys.create_dir_all w path)
    lift (check_io failed)
    Io.log (made_dir path)

  unfoldable pub create_dir : String → Io (Unit {0})
  unfolding make_dir
  create_dir path = do is_dir ← gets (λ w. sys.is_dir w path); make_dir is_dir path

  unfoldable pub create_crt_dirs : Config → List Types.Certificate → Io (Unit {0})
  create_crt_dirs config [] = pure tt
  create_crt_dirs config (crt ∷ certs) = do
    create_dir (get_crt_dir sys.build crt config)
    create_crt_dirs config certs

  unfoldable pub init_directories : Config → Io (Unit {0})
  init_directories config = do
    create_dir (get_account_dir sys.build config)
    create_crt_dirs config config.certificate

  -- `read_cnf` with nothing loaded before
  unfoldable pub read_all : ℕ → String → Io Config
  read_all depth path w =
      let (r, s) = read_cnf depth path (record { world = w; loaded_files = [] }) in (r, s.world)

  unfoldable pub from_file : ℕ → String → Io Config
  from_file depth file_name = do
    config ← read_all depth file_name
    let config = dispatch_global_env_vars config
    init_directories config
    pure config
