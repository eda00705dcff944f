-- ===== src/Tests/Reading.antt =====
-- Runs of the reading of a configuration: a file that includes another, which includes the first.
use acmed.Base.{
  ℕ, String, ◌≡◌, refl, ◌++◌, Bool, true, false, contains, subst, Option, none, some, List, [], ◌∷◌,
  map, All, arith, ◌==◌, string_eq, number_eq, list_eq, if◌then◌else◌,
}
use acmed.Base.Result.{Result, ok}
use acmed.Error.{Error}
use acmed.Base.Ends.{Ends}
use acmed.World.{World, File, opened}
use acmed.World.System.{System}
use acmed.Config.Types
use acmed.Config.Types.{Config, GlobalOptions}
use acmed.Config.Reading.{Reading, read_cnf, read_all, from_file, add_included}
use acmed.Config.Included.{included_files}
use acmed.Config.Overlaps.{Overlap, add_included-Overlap}
use acmed.Config.Variables.{Inherits, Each, dispatch_global_env_vars-Inherits}
use acmed.Config.Loaded.{NoRepeat, read_all-NoRepeat}
use acmed.Config.Identified.{Named, from_file-Named}
use acmed.Config.Depth.{Finite, read_all-Ends}
use acmed.Config.Merge.{dispatch_global_env_vars}
use acmed.Tests.Outside.{outside, machine}
use acmed.Tests.Options.{crt, cnf}

abbrev global : Option String → Option String → GlobalOptions
global accounts_directory renew_delay = record {
  accounts_directory = accounts_directory;
  cert_file_group = none;
  cert_file_mode = none;
  cert_file_user = none;
  certificates_directory = none;
  env = ("LANG", "C") ∷ [];
  file_name_format = none;
  pk_file_group = none;
  pk_file_mode = none;
  pk_file_user = none;
  random_early_renew = none;
  renew_delay = renew_delay;
  root_certificates = none;
}

abbrev me : Types.Account
me = record {
  contacts = [];
  env = [];
  external_account = none;
  hooks = none;
  key_type = none;
  name = "me";
  signature_algorithm = none;
}

abbrev main_file : Config
main_file = record cnf {
  global = some (global (some "/acc") (some "1w"));
  account = me ∷ [];
  certificate = record crt { env = ("LANG", "fr") ∷ ("HOME", "/") ∷ [] } ∷ [];
  included = "b.toml" ∷ [];
}

abbrev other_file : Config
other_file = record {
  global = some (global (some "/b") (some "2w"));
  endpoint = [];
  rate_limit = [];
  hook = [];
  group = [];
  account = [];
  certificate = [];
  included = "a.toml" ∷ [];
}

abbrev pub sys : System
sys = record {
  build = record {
    default_accounts_dir = "/accounts";
    default_cert_dir = "/certs";
    default_cert_format = "{{ name }}";
    default_config_file = "/a.toml";
  };
  canonicalize = λ _ p. if p == "/b.toml" then ok "/b.toml" else ok "/a.toml";
  glob = λ _ p. ok (p ∷ []);
  is_dir = λ _ _. true;
  create_dir_all = λ _ _. none;
  read_text = λ raw. if raw == 1 ∷ [] then ok "a" else ok "b";
  from_toml = λ s. if s == "a" then ok main_file else ok other_file;
  custom_error = λ text message. message;
}

abbrev file_at : String → Option File
file_at p =
    if p == "/b.toml"
    then some (record { content = 2 ∷ []; mode = 420 })
    else if p == "/a.toml"
    then some (record { content = 1 ∷ []; mode = 420 })
    else none

abbrev pub disk : World
disk = record machine { files = file_at }

abbrev started : Reading
started = record { world = disk; loaded_files = "/a.toml" ∷ [] }

abbrev merged : Config
merged = record main_file { global = some (global (some "/b") (some "1w")) }

add_included-Overlap_example : Overlap main_file (other_file ∷ []) merged
unfolding add_included included_files read_cnf acmed.Base.Exec.◌>>=◌
    acmed.Config.Reading.get_cnf_path acmed.Config.Reading.add_files acmed.Config.Reading.read_path
    acmed.Storage.Paths.push acmed.Config.Reading.pop acmed.Config.Reading.before_slash
    acmed.Config.Reading.load_once acmed.Config.Reading.load_file acmed.Config.Reading.read_contents
    acmed.World.Io.open_file acmed.World.Io.attempt_io acmed.World.Io.log acmed.Config.Merge.append
    acmed.Config.Merge.merge_global acmed.Config.Merge.empty_config acmed.Config.Merge.merge_options
    acmed.Config.Toml.from_str acmed.Config.Toml.check_identifiers
add_included-Overlap_example =
    add_included-Overlap outside sys (read_cnf outside sys 3) "/a.toml" main_file ("b.toml" ∷ [])
      started merged refl

dispatch_global_env_vars-Inherits_example :
    Each
      (Inherits (("LANG", "C") ∷ []))
      main_file.certificate
      (dispatch_global_env_vars main_file).certificate
unfolding acmed.Base.Dict.get
dispatch_global_env_vars-Inherits_example =
    dispatch_global_env_vars-Inherits main_file ((refl, (refl, tt)), tt)

read_all-NoRepeat_example :
    (paths : List String) × ((read_all outside sys 3 "/a.toml" disk).1.log ≡ map opened paths ++ [])
    × NoRepeat paths
    × ((read_all outside sys 3 "/a.toml" disk).1.files ≡ disk.files)
read_all-NoRepeat_example = read_all-NoRepeat outside sys 3 "/a.toml" disk

known_of :
    (b : Bool) (c : String)
    → ◌≡◌ {A = Result String String} (if b then ok "/b.toml" else ok "/a.toml") (ok c)
    → contains ("/a.toml" ∷ "/b.toml" ∷ []) c ≡ true
known_of true c e =
    let same : "/b.toml" ≡ c = cc e in
    subst (λ x. contains ("/a.toml" ∷ "/b.toml" ∷ []) x ≡ true) same refl
known_of false c e =
    let same : "/a.toml" ≡ c = cc e in
    subst (λ x. contains ("/a.toml" ∷ "/b.toml" ∷ []) x ≡ true) same refl

two_files : Finite sys ("/a.toml" ∷ "/b.toml" ∷ [])
two_files = record {
  canonicalize = λ w p m e. ground arith;
  glob = λ w p m e. absurd (cc e);
  read_text = λ raw m e. ground arith;
  from_toml = λ s m e. ground arith;
  known = λ w p c e. known_of (p == "/b.toml") c e;
}

read_all-Ends_example : Ends (read_all outside sys 3 "/a.toml" disk).0
read_all-Ends_example =
    read_all-Ends outside sys ("/a.toml" ∷ "/b.toml" ∷ []) two_files 3 "/a.toml" disk (omega arith)

abbrev config_or : Config → Result Error Config → Config
config_or d (ok c) = c
config_or d _ = d

abbrev read_config : Config
read_config = config_or cnf (from_file outside sys 3 "/a.toml" disk).0

from_file-Named_example :
    All (λ (crt : Types.Certificate). All (Named outside) crt.identifiers) read_config.certificate
unfolding from_file acmed.Base.Exec.◌>>=◌ read_all read_cnf acmed.Config.Reading.read_path
    acmed.Config.Reading.load_once acmed.Config.Reading.load_file acmed.Config.Reading.read_contents
    acmed.World.Io.open_file acmed.World.Io.attempt_io acmed.World.Io.log acmed.Config.Toml.from_str
    acmed.Config.Toml.check_identifiers acmed.Config.Toml.is_deserialized
    acmed.Config.Toml.filled_nb add_included acmed.Config.Reading.get_cnf_path
    acmed.Base.Dict.extend acmed.Base.Dict.insert acmed.Config.Merge.append dispatch_global_env_vars
    acmed.Config.Merge.empty_config acmed.Config.Merge.merge_global acmed.Config.Merge.merge_options
    acmed.Config.Merge.with_global_env acmed.Config.Reading.add_files
    acmed.Config.Reading.before_slash acmed.Config.Reading.create_crt_dirs
    acmed.Config.Reading.create_dir acmed.Config.Reading.init_directories acmed.Config.Reading.pop
    acmed.Config.Sections.get_account_dir acmed.Config.Sections.get_crt_dir acmed.Storage.Paths.push
from_file-Named_example = from_file-Named outside sys 3 "/a.toml" disk read_config refl
