-- ===== src/Config/Merge.antt =====
-- How acmed/src/config.rs joins the files of a configuration, and hands the variables of the global
-- section on to the certificates.
use acmed.Base.{String, Option, none, some, List, [], ◌∷◌, ◌++◌, map}
use acmed.Base.Dict.{Dict, extend}
use acmed.Config.Types
use acmed.Config.Types.{Config, GlobalOptions}

-- `Config::default()`
unfoldable pub empty_config : Config
empty_config = record {
  global = none;
  endpoint = [];
  rate_limit = [];
  hook = [];
  group = [];
  account = [];
  certificate = [];
  included = [];
}

-- `set_cfg_attr!`: what is set goes over what is there.
abbrev pub set_cfg_attr : {A : Type 0} → Option A → Option A → Option A
set_cfg_attr to (some v) = some v
set_cfg_attr to none = to

unfoldable pub merge_options : GlobalOptions → GlobalOptions → GlobalOptions
merge_options tmp_glob new_glob = record tmp_glob {
  accounts_directory = set_cfg_attr tmp_glob.accounts_directory new_glob.accounts_directory;
  certificates_directory =
      set_cfg_attr tmp_glob.certificates_directory new_glob.certificates_directory;
  cert_file_mode = set_cfg_attr tmp_glob.cert_file_mode new_glob.cert_file_mode;
  cert_file_user = set_cfg_attr tmp_glob.cert_file_user new_glob.cert_file_user;
  cert_file_group = set_cfg_attr tmp_glob.cert_file_group new_glob.cert_file_group;
  pk_file_mode = set_cfg_attr tmp_glob.pk_file_mode new_glob.pk_file_mode;
  pk_file_user = set_cfg_attr tmp_glob.pk_file_user new_glob.pk_file_user;
  pk_file_group = set_cfg_attr tmp_glob.pk_file_group new_glob.pk_file_group;
}

unfoldable pub merge_global : Option GlobalOptions → Option GlobalOptions → Option GlobalOptions
merge_global none add = add
merge_global (some g) none = some g
merge_global (some g) (some new_glob) = some (merge_options g new_glob)

-- what the loop of `read_cnf` makes of the configuration of an included file
unfoldable pub append : Config → Config → Config
append config add_cnf = record config {
  endpoint = config.endpoint ++ add_cnf.endpoint;
  rate_limit = config.rate_limit ++ add_cnf.rate_limit;
  hook = config.hook ++ add_cnf.hook;
  group = config.group ++ add_cnf.group;
  account = config.account ++ add_cnf.account;
  certificate = config.certificate ++ add_cnf.certificate;
  global = merge_global config.global add_cnf.global;
}

-- the variables of a certificate over those of the global section
unfoldable pub with_global_env : Dict String → Types.Certificate → Types.Certificate
with_global_env [] cert = cert
with_global_env (v ∷ vars) cert = record cert { env = extend (v ∷ vars) cert.env }

abbrev pub dispatched : Option GlobalOptions → List Types.Certificate → List Types.Certificate
dispatched none certs = certs
dispatched (some glob) certs = map (with_global_env glob.env) certs

unfoldable pub dispatch_global_env_vars : Config → Config
dispatch_global_env_vars config = record config {
  certificate = dispatched config.global config.certificate;
}
