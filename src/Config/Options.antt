-- ===== src/Config/Options.antt =====
-- The options of acmed/src/config.rs as the program reads them: an option that a section leaves out
-- comes from another section or has a default.
use acmed.Base.{
  ℕ, String, ◌<>◌, Bool, false, ◌||◌, Option, none, some, List, [], ◌∷◌, ◌++◌, ◌==◌, number_eq,
  string_eq, if◌then◌else◌, unwrap_or, replace,
}
use acmed.Base.Result.{Result, ok, err, ◌>>=◌, collect}
use acmed.Error.{Error, from_text}
use acmed.Crypto.KeyType
use acmed.Crypto.KeyType.{KeyType}
use acmed.Crypto.Hash
use acmed.Crypto.Hash.{HashFunction, sha256}
use acmed.Structs.Identifier.{IdentifierType, Identifier as StoredIdentifier}
use acmed.World.Env.{Env}
use acmed.Duration.{parse_duration}
use acmed.Identifier
use acmed.Endpoint
use acmed.Endpoint.Limits.{Packages}
use acmed.Config.Types
use acmed.Config.Types.{Config, GlobalOptions}

-- main.rs, in seconds and in octal
abbrev pub default_cert_random_early_renew : ℕ
default_cert_random_early_renew = 0

abbrev pub default_cert_renew_delay : ℕ
default_cert_renew_delay = 2592000

abbrev pub default_cert_file_mode : ℕ
default_cert_file_mode = 420

abbrev pub default_pk_file_mode : ℕ
default_pk_file_mode = 384

abbrev pub default_cert_key_type : KeyType
default_cert_key_type = KeyType.rsa2048

abbrev pub read_or : Option String → Result Error ℕ → Result Error ℕ
read_or (some d) other = parse_duration d
read_or none other = other

abbrev pub of_global : {A : Type 0} → (GlobalOptions → A) → A → Option GlobalOptions → A
of_global f default_ none = default_
of_global f default_ (some g) = f g

abbrev pub or_option : {A : Type 0} → Option A → A → A
or_option (some a) other = a
or_option none other = other

abbrev pub mode_or : (GlobalOptions → Option ℕ) → ℕ → Config → ℕ
mode_or field default_ cnf = of_global (λ g. unwrap_or (field g) default_) default_ cnf.global

unfoldable pub get_cert_file_mode : Config → ℕ
get_cert_file_mode cnf = mode_or (λ g. g.cert_file_mode) default_cert_file_mode cnf

unfoldable pub get_pk_file_mode : Config → ℕ
get_pk_file_mode cnf = mode_or (λ g. g.pk_file_mode) default_pk_file_mode cnf

-- the delays of the global section, of an endpoint, and of a certificate
unfoldable pub global_random_early_renew : GlobalOptions → Result Error ℕ
global_random_early_renew g = read_or g.random_early_renew (ok default_cert_random_early_renew)

unfoldable pub global_renew_delay : GlobalOptions → Result Error ℕ
global_renew_delay g = read_or g.renew_delay (ok default_cert_renew_delay)

unfoldable pub endpoint_random_early_renew : Types.Endpoint → Config → Result Error ℕ
endpoint_random_early_renew ep cnf =
    read_or ep.random_early_renew
      (of_global global_random_early_renew (ok default_cert_random_early_renew) cnf.global)

unfoldable pub endpoint_renew_delay : Types.Endpoint → Config → Result Error ℕ
endpoint_renew_delay ep cnf =
    read_or ep.renew_delay (of_global global_renew_delay (ok default_cert_renew_delay) cnf.global)

unfoldable pub find_endpoint : String → List Types.Endpoint → Result Error Types.Endpoint
find_endpoint name [] = err (from_text (name <> ": unknown endpoint"))
find_endpoint name (ep ∷ more) = if ep.name == name then ok ep else find_endpoint name more

unfoldable pub do_get_endpoint : Types.Certificate → Config → Result Error Types.Endpoint
do_get_endpoint crt cnf = find_endpoint crt.endpoint cnf.endpoint

unfoldable pub get_random_early_renew : Types.Certificate → Config → Result Error ℕ
get_random_early_renew crt cnf =
    read_or crt.random_early_renew
      (do_get_endpoint crt cnf >>= λ ep. endpoint_random_early_renew ep cnf)

unfoldable pub get_renew_delay : Types.Certificate → Config → Result Error ℕ
get_renew_delay crt cnf =
    read_or crt.renew_delay (do_get_endpoint crt cnf >>= λ ep. endpoint_renew_delay ep cnf)

unfoldable pub get_kp_reuse : Types.Certificate → Bool
get_kp_reuse crt = unwrap_or crt.kp_reuse false

-- `Display for Identifier`
unfoldable pub shown : Types.Identifier → String
shown id = or_option id.dns (or_option id.ip "")

unfoldable pub is_reserved : ℕ → Bool
is_reserved c = c == b'*' || (c == b':' || c == b'/')

abbrev pub name_of : Option String → List Types.Identifier → Result Error String
name_of (some n) ids = ok n
name_of none [] = err (from_text "certificate has no identifiers")
name_of none (id ∷ more) = ok (shown id)

unfoldable pub get_crt_name : Types.Certificate → Result Error String
get_crt_name crt = do name ← name_of crt.name crt.identifiers; ok (replace is_reserved "_" name)

unfoldable pub find_rate_limit : String → List Types.RateLimit → Result Error Types.RateLimit
find_rate_limit name [] = err (from_text (name <> ": rate limit not found"))
find_rate_limit name (rl ∷ more) = if rl.name == name then ok rl else find_rate_limit name more

unfoldable pub get_rate_limit : Config → String → Result Error Types.RateLimit
get_rate_limit cnf name = find_rate_limit name cnf.rate_limit

-- `Endpoint::to_generic`
unfoldable pub to_endpoint :
    Packages → Types.Endpoint → Config → List String → Result Error Endpoint.Endpoint
to_endpoint packages ep cnf root_certs = do
  limits ← collect (get_rate_limit cnf) ep.rate_limits
  Endpoint.new packages ep.name ep.url ep.tos_agreed limits (
      root_certs
      ++ (or_option ep.root_certificates []
          ++ of_global (λ g. or_option g.root_certificates []) [] cnf.global))

module _ (env : Env) where
  unfoldable pub get_key_type : Types.Certificate → Result Error KeyType
  get_key_type crt = elim crt.key_type [
    | some a ↦ KeyType.parse env.unicode a
    | none ↦ ok default_cert_key_type
  ]

  unfoldable pub get_csr_digest : Types.Certificate → Result Error HashFunction
  get_csr_digest crt = elim crt.csr_digest [ some d ↦ Hash.parse env.unicode d | none ↦ ok sha256 ]

  abbrev type_and_value : Option String → Option String → Result Error (IdentifierType × String)
  type_and_value (some d) ip = ok (IdentifierType.dns, d)
  type_and_value none (some ip) = ok (IdentifierType.ip, ip)
  type_and_value none none = err (from_text "no identifier found")

  -- `Identifier::to_generic`
  unfoldable pub to_identifier : Types.Identifier → Result Error StoredIdentifier
  to_identifier id = do
    found ← type_and_value id.dns id.ip
    Identifier.new env found.0 found.1 id.challenge id.env

  unfoldable pub get_identifiers : Types.Certificate → Result Error (List StoredIdentifier)
  get_identifiers crt = collect to_identifier crt.identifiers
