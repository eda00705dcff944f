-- ===== src/Certificate.antt =====
-- acmed/src/certificate.rs: a certificate of the configuration, when it is due, and its hooks. A
-- duration is its number of nanoseconds.
pub mod Due
use acmed.Base.{
  ℕ, zero, suc, ◌-◌, ◌*◌, String, ◌<>◌, Bool, true, false, not, Option, none, some, List, [], ◌∷◌,
  map, join, ◌==◌, string_eq, if◌then◌else◌, contains, any, trim_wildcards,
}
use acmed.Base.Result.{Result, ok, err, panic}
use acmed.Base.Exec.{pure, lift, gets, ◌>>=◌, ◌>>◌}
use acmed.Base.Dict.{Dict}
use acmed.Error.{Error, from_text}
use acmed.Crypto.KeyType
use acmed.Crypto.KeyType.{KeyType}
use acmed.Crypto.Hash.{HashFunction}
use acmed.Crypto.Subject.{SubjectAttribute}
use acmed.Crypto.X509.{X509Certificate, from_pem, expires_in, subject_alt_names}
use acmed.Config.Types
use acmed.Config.Types.{HookType}
use acmed.Structs.Identifier
use acmed.Structs.Identifier.{IdentifierType, Identifier, http01, dns01, tls_alpn01}
use acmed.World.{World}
use acmed.World.Env.{Env, ChallengeHookData, PostOperationHookData, challenge, post_operation}
use acmed.World.Io.{Io}
use acmed.Hooks
use acmed.Hooks.{Hook, set_env}
use acmed.Storage.Paths.{FileManager, get_file_path, certificate, private_key}
use acmed.Storage.Files.{get_certificate, certificate_files_exists}
use acmed.Identifier.{get_tls_alpn_name}

pub record Certificate : Type 0 where
  pub account_name : String
  pub identifiers : List Identifier
  pub subject_attributes : List (SubjectAttribute × String)
  pub key_type : KeyType
  pub csr_digest : HashFunction
  pub kp_reuse : Bool
  pub endpoint_name : String
  pub hooks : List Hook
  pub crt_name : String
  pub env : Dict String
  pub random_early_renew : ℕ
  pub renew_delay : ℕ
  pub file_manager : FileManager

unfoldable pub get_id : Certificate → String
get_id cert = cert.crt_name <> ("_" <> KeyType.to_string cert.key_type)

abbrev pub matched_value : Identifier → String
matched_value d = elim d.id_type [
  | IdentifierType.dns ↦ trim_wildcards d.value
  | IdentifierType.ip ↦ d.value
]

unfoldable pub find_identifier : String → List Identifier → Result Error Identifier
find_identifier identifier [] = err (from_text (identifier <> ": identifier not found"))
find_identifier identifier (d ∷ more) =
    if identifier == matched_value d then ok d else find_identifier identifier more

unfoldable pub get_identifier_from_str : Certificate → String → Result Error Identifier
unfolding find_identifier
get_identifier_from_str cert identifier = find_identifier identifier cert.identifiers

unfoldable pub identifier_list : Certificate → String
identifier_list cert = join "," (map (λ (d : Identifier). d.value) cert.identifiers)

abbrev pub nanoseconds : ℕ → ℕ
nanoseconds secs = secs * 1000000000

-- `thread_rng().gen_range(Duration::ZERO..bound)`, which panics on an empty range
unfoldable pub gen_range : Env → World → ℕ → Result Error ℕ
gen_range env w zero = panic "cannot sample empty range"
gen_range env w (suc bound) = ok (env.gen_range w (suc bound))

module _ (env : Env) (cert : Certificate) where
  unfoldable pub has_missing_identifiers : X509Certificate → Bool
  has_missing_identifiers crt =
      let cert_names = subject_alt_names env crt in
      any (λ (v : Identifier). not (contains cert_names v.value)) cert.identifiers

  unfoldable pub renew_in : X509Certificate → Io ℕ
  renew_in crt = do
    left ← gets (λ w. expires_in env w crt)
    secs ← lift left
    drawn ← gets (λ w. gen_range env w cert.random_early_renew)
    early ← lift drawn
    pure (nanoseconds secs - cert.renew_delay - early)

  unfoldable pub check_renewal : X509Certificate → Io ℕ
  check_renewal crt = if has_missing_identifiers crt then pure 0 else renew_in crt

  scheduled : Bool → Io ℕ
  scheduled false = pure 0
  scheduled true = do
    raw_crt ← get_certificate env cert.file_manager
    crt ← lift (from_pem env raw_crt)
    check_renewal crt

  unfoldable pub schedule_renewal : Io ℕ
  unfolding scheduled check_renewal
  schedule_renewal = do
    exists ← gets (certificate_files_exists env cert.file_manager)
    scheduled exists

  abbrev or_default : Result Error String → String
  or_default (ok s) = s
  or_default (err _) = ""
  or_default (panic _) = ""

  -- the hook for a challenge, and the one that cleans up after it
  abbrev pub challenge_hook_types : Identifier.Challenge → HookType × HookType
  challenge_hook_types http01 = (Types.challenge_http01, Types.challenge_http01_clean)
  challenge_hook_types dns01 = (Types.challenge_dns01, Types.challenge_dns01_clean)
  challenge_hook_types tls_alpn01 = (Types.challenge_tls_alpn01, Types.challenge_tls_alpn01_clean)

  unfoldable pub challenge_hook_data : String → String → Identifier → ChallengeHookData
  challenge_hook_data file_name proof identifier = record {
    identifier = identifier.value;
    identifier_tls_alpn = or_default (get_tls_alpn_name env identifier);
    challenge = Identifier.to_string identifier.challenge;
    file_name = file_name;
    proof = proof;
    is_clean_hook = false;
    env = set_env env identifier.env (set_env env cert.env []);
  }

  unfoldable pub call_challenge_hooks : String → String → String → Io (ChallengeHookData × HookType)
  call_challenge_hooks file_name proof identifier = do
    identifier ← lift (get_identifier_from_str cert identifier)
    let hook_data = challenge_hook_data file_name proof identifier
    let hook_types = challenge_hook_types identifier.challenge
    Hooks.call env cert.hooks (challenge hook_data) hook_types.0
    pure (hook_data, hook_types.1)

  unfoldable pub call_challenge_hooks_clean : ChallengeHookData → HookType → Io (Unit {0})
  call_challenge_hooks_clean hook_data hook_type =
      Hooks.call env cert.hooks (challenge hook_data) hook_type

  unfoldable pub call_post_operation_hooks : String → Bool → Io (Unit {0})
  call_post_operation_hooks status is_success = do
    certificate_path ← lift (get_file_path env cert.file_manager certificate)
    private_key_path ← lift (get_file_path env cert.file_manager private_key)
    Hooks.call env cert.hooks
        (post_operation (record {
          identifiers = map (λ (d : Identifier). d.value) cert.identifiers;
          key_type = KeyType.to_string cert.key_type;
          status = status;
          is_success = is_success;
          certificate_path = certificate_path;
          private_key_path = private_key_path;
          env = set_env env cert.env [];
        }))
        Types.post_operation
