-- ===== src/MainLoop/Setup.antt =====
-- `MainEventLoop::new` of acmed/src/main_event_loop.rs: the accounts, the endpoints and the
-- certificates of a configuration. An account and an endpoint behind a lock is the value itself.
use acmed.Base.{ℕ, String, ◌<>◌, Bool, true, false, none, some, List, [], ◌∷◌, keep, any, contains}
use acmed.Base.Result.{Result, ok, err, ok_or, ◌>>=◌, ◌>>◌}
use acmed.Base.Dict.{Dict, get, insert, contains_key}
use acmed.Error.{Error, from_text}
use acmed.Crypto.KeyType
use acmed.World.Env.{Env}
use acmed.World.System.{System}
use acmed.Hooks
use acmed.Storage.Paths.{FileManager}
use acmed.Account.State.{Account, add_endpoint_name}
use acmed.Endpoint
use acmed.Endpoint.Limits.{Packages}
use acmed.Certificate
use acmed.Certificate.{get_id, nanoseconds}
use acmed.Config.Types
use acmed.Config.Types.{Config, HookType, hook_type_eq}
use acmed.Config.Lookup.{certificate_hooks}
use acmed.Config.Options.{
  get_cert_file_mode, get_pk_file_mode, get_random_early_renew, get_renew_delay, do_get_endpoint,
  get_kp_reuse, get_crt_name, to_endpoint, get_key_type, get_csr_digest, get_identifiers,
}
use acmed.Config.Sections.{
  get_account_dir, get_cert_file_user, get_cert_file_group, get_pk_file_user, get_pk_file_group,
  get_crt_name_format, get_crt_dir, to_subject_attributes,
}

pub record MainEventLoop : Type 0 where
  pub certificates : Dict Certificate.Certificate
  pub accounts : Dict Account
  pub endpoints : Dict Endpoint.Endpoint

unfoldable pub file_hooks : List HookType
file_hooks =
    Types.file_pre_create ∷ Types.file_post_create ∷ Types.file_pre_edit ∷ Types.file_post_edit ∷ []

unfoldable pub cert_hooks : List HookType
cert_hooks =
    Types.challenge_http01 ∷ Types.challenge_http01_clean ∷ Types.challenge_dns01
    ∷ Types.challenge_dns01_clean ∷ Types.challenge_tls_alpn01 ∷ Types.challenge_tls_alpn01_clean
    ∷ Types.post_operation ∷ []

-- `filter(|h| !h.hook_type.is_disjoint(types))`
unfoldable pub hooks_of : List HookType → List Hooks.Hook → List Hooks.Hook
hooks_of types hooks = keep (λ (h : Hooks.Hook). any (contains types) h.hook_type) hooks

-- what the two kinds of file managers share
unfoldable pub file_manager : System → Config → String → List Hooks.Hook → Dict String → FileManager
file_manager sys cnf account_name hooks env = record {
  account_directory = get_account_dir sys.build cnf;
  account_name = account_name;
  crt_name = "";
  crt_name_format = "";
  crt_directory = "";
  crt_key_type = "";
  cert_file_mode = get_cert_file_mode cnf;
  cert_file_owner = get_cert_file_user cnf;
  cert_file_group = get_cert_file_group cnf;
  pk_file_mode = get_pk_file_mode cnf;
  pk_file_owner = get_pk_file_user cnf;
  pk_file_group = get_pk_file_group cnf;
  hooks = hooks_of file_hooks hooks;
  env = env;
}

unfoldable pub check_id : Bool → String → Result Error (Unit {0})
check_id true crt_id = err (from_text (crt_id <> ": duplicate certificate id"))
check_id false crt_id = ok tt

unfoldable pub or_insert : Endpoint.Endpoint → Dict Endpoint.Endpoint → Dict Endpoint.Endpoint
or_insert endpoint endpoints = elim (get endpoint.name endpoints) [
  | some e ↦ endpoints
  | none ↦ insert endpoint.name endpoint endpoints
]

unfoldable pub put :
    String → Account → Endpoint.Endpoint → Certificate.Certificate → MainEventLoop → MainEventLoop
put account_name acc endpoint cert l = record {
  accounts = insert account_name (add_endpoint_name endpoint.name acc) l.accounts;
  endpoints = or_insert endpoint l.endpoints;
  certificates = insert (get_id cert) cert l.certificates;
}

module _ (env : Env) (sys : System) (depth : ℕ) (packages : Packages) (root_certs : List String)
    (cnf : Config) where
  -- `Certificate::get_endpoint` of config.rs
  unfoldable pub get_endpoint : Types.Certificate → Result Error Endpoint.Endpoint
  get_endpoint crt = do
    endpoint ← do_get_endpoint crt cnf
    to_endpoint packages endpoint cnf root_certs

  unfoldable pub to_certificate : Types.Certificate → String → Result Error Certificate.Certificate
  to_certificate crt endpoint_name = do
    crt_name ← get_crt_name crt
    key_type ← get_key_type env crt
    hooks ← certificate_hooks cnf depth crt
    crt_name_format ← get_crt_name_format sys.build crt cnf
    identifiers ← get_identifiers env crt
    csr_digest ← get_csr_digest env crt
    random_early_renew ← get_random_early_renew crt cnf
    renew_delay ← get_renew_delay crt cnf
    ok (record {
      account_name = crt.account;
      identifiers = identifiers;
      subject_attributes = to_subject_attributes crt.subject_attributes;
      key_type = key_type;
      csr_digest = csr_digest;
      kp_reuse = get_kp_reuse crt;
      endpoint_name = endpoint_name;
      hooks = hooks_of cert_hooks hooks;
      crt_name = crt_name;
      env = crt.env;
      random_early_renew = nanoseconds random_early_renew;
      renew_delay = nanoseconds renew_delay;
      file_manager = record (file_manager sys cnf crt.account hooks crt.env) {
        crt_name = crt_name;
        crt_name_format = crt_name_format;
        crt_directory = get_crt_dir sys.build crt cnf;
        crt_key_type = KeyType.to_string key_type;
      };
    })

  unfoldable pub add_certificate : Types.Certificate → MainEventLoop → Result Error MainEventLoop
  add_certificate crt l = do
    endpoint ← get_endpoint crt
    cert ← to_certificate crt endpoint.name
    check_id (contains_key (get_id cert) l.certificates) (get_id cert)
    acc ← ok_or (get crt.account l.accounts) (from_text (crt.account <> ": account not found"))
    ok (put crt.account acc endpoint cert l)

  unfoldable pub add_certificates :
      List Types.Certificate → MainEventLoop → Result Error MainEventLoop
  add_certificates [] l = ok l
  add_certificates (crt ∷ certs) l = do l ← add_certificate crt l; add_certificates certs l
