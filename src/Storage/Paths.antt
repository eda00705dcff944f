-- ===== src/Storage/Paths.antt =====
-- The file manager of acmed/src/storage.rs and the names of its files.
use acmed.Base.{
  ℕ, String, ◌<>◌, Bool, false, ◌||◌, Option, List, string_eq, if◌then◌else◌, is_empty, code, ◌==◌,
  number_eq,
}
use text.Mathlib.Text.{starts_with}
use acmed.Base.Result.{Result, ok, ◌>>=◌}
use acmed.Base.Dict.{Dict}
use acmed.Error.{Error}
use acmed.World.Env.{Env, cert_file}
use acmed.Hooks.{Hook, render_template}

pub record FileManager : Type 0 where
  pub account_name : String
  pub account_directory : String
  pub crt_name : String
  pub crt_name_format : String
  pub crt_directory : String
  pub crt_key_type : String
  pub cert_file_mode : ℕ
  pub cert_file_owner : Option String
  pub cert_file_group : Option String
  pub pk_file_mode : ℕ
  pub pk_file_owner : Option String
  pub pk_file_group : Option String
  pub hooks : List Hook
  pub env : Dict String

pub data FileType : Type 0 where
  account private_key certificate : FileType

-- `Display for FileType`
unfoldable pub to_string : FileType → String
to_string account = "account"
to_string private_key = "pk"
to_string certificate = "crt"

ends_in_slash : String → Bool
ends_in_slash String.[] = false
ends_in_slash (String.◌∷◌ c String.[]) = code c == b'/'
ends_in_slash (String.◌∷◌ c (String.◌∷◌ d s)) = ends_in_slash (String.◌∷◌ d s)

-- `PathBuf::push`
unfoldable pub push : String → String → String
unfolding ends_in_slash
push base name =
    if starts_with name "/"
    then name
    else if is_empty base || ends_in_slash base
    then base <> name
    else base <> ("/" <> name)

-- The three parts of `get_file_full_path`.
pub record FullPath : Type 0 where
  pub directory : String
  pub name : String
  pub path : String

unfoldable pub base_path : FileManager → FileType → String
base_path fm account = fm.account_directory
base_path fm private_key = fm.crt_directory
base_path fm certificate = fm.crt_directory

module _ (env : Env) where
  unfoldable pub file_name : FileManager → FileType → Result Error String
  file_name fm account = ok (
      env.crypto.b64_encode (env.as_bytes fm.account_name)
      <> ("." <> (to_string account <> ("." <> "bin"))))
  file_name fm file_type = render_template env fm.crt_name_format (
      cert_file (record {
        ext = "pem";
        file_type = to_string file_type;
        key_type = fm.crt_key_type;
        name = fm.crt_name;
      }))

  unfoldable pub get_file_full_path : FileManager → FileType → Result Error FullPath
  get_file_full_path fm file_type = do
    let base = base_path fm file_type
    name ← file_name fm file_type
    ok (record { directory = base; name = name; path = push base name })

  unfoldable pub get_file_path : FileManager → FileType → Result Error String
  get_file_path fm file_type = do full ← get_file_full_path fm file_type; ok full.path
