-- ===== src/Storage/Files.antt =====
-- Reading and writing the files of acmed/src/storage.rs, on unix.
use acmed.Base.{
  ℕ, String, Bool, true, false, not, ◌&&◌, Option, none, some, List, [], ◌∷◌, if◌then◌else◌,
  all_chars, is_ascii_digit, is_some,
}
use acmed.Base.Result
use acmed.Base.Result.{Result, ok, err, panic}
use acmed.Base.Exec.{pure, lift, gets, ◌>>=◌, ◌>>◌, map_err}
use acmed.Error.{Error, from_text, from_nix, prefix}
use acmed.Config.Types
use acmed.Config.Types.{HookType}
use acmed.World.{Bytes, World, chowned}
use acmed.Crypto.Keys
use acmed.World.Env.{Env, KeyPair, file_storage, chown, read}
use acmed.World.Io.{Io, log, attempt_io, open_file, open_for_write, write_all}
use acmed.Hooks
use acmed.Hooks.{set_env}
use acmed.Storage.Paths.{
  FileManager, FileType, account, private_key, certificate, get_file_full_path, get_file_path,
}

abbrev pub default_account_file_mode : ℕ
default_account_file_mode = 384

unfoldable pub file_mode : FileManager → FileType → ℕ
file_mode fm certificate = fm.cert_file_mode
file_mode fm private_key = fm.pk_file_mode
file_mode fm account = default_account_file_mode

abbrev check_nix : Option String → Result Error (Unit {0})
check_nix none = ok tt
check_nix (some e) = err (from_nix e)

unfoldable pub is_new : String → World → Bool
is_new path w = not (is_some (w.files path))

module _ (env : Env) where
  unfoldable pub read_file : String → Io Bytes
  read_file path = do
    contents ← map_err (prefix path) (open_file env path)
    attempt_io env (read path)
    pure contents

  -- A name of digits is the number itself, any other is looked up.
  parse_id : String → String → Result Error (Option ℕ)
  parse_id message name = elim (env.unix.parse_u32 name) [
    | some n ↦ ok (some n)
    | none ↦ err (from_text message)
  ]

  unfoldable pub resolve :
      String → (World → String → Result String (Option ℕ)) → Option String → Io (Option ℕ)
  unfolding parse_id
  resolve message find none = pure none
  resolve message find (some name) = do
    found ← gets (λ w. find w name)
    lift (
        if all_chars is_ascii_digit name
        then parse_id message name
        else Result.map_err from_text found)

  unfoldable pub change_owner : String → Option String → Option String → Io (Unit {0})
  change_owner path owner group = do
    uid ← resolve "unable to parse the UID" env.unix.user owner
    gid ← resolve "unable to parse the GID" env.unix.group group
    failed ← gets (λ w. env.io_error w (chown path))
    lift (check_nix failed)
    log (chowned path)

  unfoldable pub set_owner : FileManager → String → FileType → Io (Unit {0})
  unfolding change_owner resolve
  set_owner fm path account = pure tt
  set_owner fm path certificate = change_owner path fm.cert_file_owner fm.cert_file_group
  set_owner fm path private_key = change_owner path fm.pk_file_owner fm.pk_file_group

  abbrev pub before_write : Bool → HookType
  before_write true = Types.file_pre_create
  before_write false = Types.file_pre_edit

  abbrev pub after_write : Bool → HookType
  after_write true = Types.file_post_create
  after_write false = Types.file_post_edit

  -- What `write_file` does to the file between its hooks.
  unfoldable pub store : FileManager → FileType → String → Bytes → Io (Unit {0})
  store fm file_type path data_in = do
    map_err (prefix path) (open_for_write env (file_mode fm file_type) path)
    map_err (prefix path) (write_all env path data_in)
    map_err (prefix path) (set_owner fm path file_type)

  unfoldable pub write_file : FileManager → FileType → Bytes → Io (Unit {0})
  write_file fm file_type data_in = do
    full ← lift (get_file_full_path env fm file_type)
    let hook_data = file_storage (record {
      file_name = full.name;
      file_directory = full.directory;
      file_path = full.path;
      env = set_env env fm.env [];
    })
    new ← gets (is_new full.path)
    Hooks.call env fm.hooks hook_data (before_write new)
    store fm file_type full.path data_in
    Hooks.call env fm.hooks hook_data (after_write new)

  unfoldable pub get_account_data : FileManager → Io Bytes
  get_account_data fm = do path ← lift (get_file_path env fm account); read_file path

  abbrev pub set_account_data : FileManager → Bytes → Io (Unit {0})
  set_account_data fm data_in = write_file fm account data_in

  unfoldable pub get_keypair : FileManager → Io KeyPair
  get_keypair fm = do
    path ← lift (get_file_path env fm private_key)
    raw_key ← read_file path
    lift (Keys.from_pem env raw_key)

  unfoldable pub set_keypair : FileManager → KeyPair → Io (Unit {0})
  set_keypair fm key_pair = do
    data_in ← lift (Keys.private_key_to_pem env key_pair)
    write_file fm private_key data_in

  unfoldable pub get_certificate : FileManager → Io Bytes
  get_certificate fm = do path ← lift (get_file_path env fm certificate); read_file path

  abbrev pub write_certificate : FileManager → Bytes → Io (Unit {0})
  write_certificate fm data_in = write_file fm certificate data_in

abbrev exists_at : Result Error String → World → Bool
exists_at (ok path) w = is_some (w.files path)
exists_at (err _) w = false
exists_at (panic _) w = false

-- `check_files`: a path that cannot be made counts as a missing file.
unfoldable pub check_files : Env → FileManager → List FileType → World → Bool
check_files env fm [] w = true
check_files env fm (t ∷ more) w = exists_at (get_file_path env fm t) w && check_files env fm more w

unfoldable pub account_files_exists : Env → FileManager → World → Bool
unfolding check_files
account_files_exists env fm w = check_files env fm (account ∷ []) w

unfoldable pub certificate_files_exists : Env → FileManager → World → Bool
unfolding check_files
certificate_files_exists env fm w = check_files env fm (private_key ∷ certificate ∷ []) w
