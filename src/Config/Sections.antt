-- ===== src/Config/Sections.antt =====
-- The directories, the names and the owners of files in acmed/src/config.rs, and how its sections
-- become the external accounts and the attributes of the program.
use acmed.Base.{String, ◌<>◌, Option, none, some, List, [], ◌∷◌, unwrap_or}
use acmed.Base.Result
use acmed.Base.Result.{Result, ok, err, ◌>>=◌, ◌>>◌}
use acmed.Error.{Error, from_text, from_base64}
use acmed.Crypto.Algorithm
use acmed.Crypto.Algorithm.{JwsSignatureAlgorithm, hs256, hs384, hs512}
use acmed.Crypto.Subject
use acmed.Crypto.Subject.{SubjectAttribute}
use acmed.World.Env.{Env}
use acmed.World.System.{Build}
use acmed.Account.State
use acmed.Config.Types
use acmed.Config.Types.{Config, GlobalOptions, AccountContact, SubjectAttributes}
use acmed.Config.Options.{of_global, do_get_endpoint}

-- main.rs
abbrev pub default_external_account_jwa : JwsSignatureAlgorithm
default_external_account_jwa = hs256

unfoldable pub get_cert_file_user : Config → Option String
get_cert_file_user cnf = of_global (λ g. g.cert_file_user) none cnf.global

unfoldable pub get_cert_file_group : Config → Option String
get_cert_file_group cnf = of_global (λ g. g.cert_file_group) none cnf.global

unfoldable pub get_pk_file_user : Config → Option String
get_pk_file_user cnf = of_global (λ g. g.pk_file_user) none cnf.global

unfoldable pub get_pk_file_group : Config → Option String
get_pk_file_group cnf = of_global (λ g. g.pk_file_group) none cnf.global

module _ (build : Build) where
  unfoldable pub get_account_dir : Config → String
  get_account_dir cnf =
      of_global (λ g. unwrap_or g.accounts_directory build.default_accounts_dir)
        build.default_accounts_dir cnf.global

  unfoldable pub global_crt_name_format : GlobalOptions → String
  global_crt_name_format g = unwrap_or g.file_name_format build.default_cert_format

  unfoldable pub endpoint_crt_name_format : Types.Endpoint → Config → String
  endpoint_crt_name_format ep cnf =
      unwrap_or ep.file_name_format
        (of_global global_crt_name_format build.default_cert_format cnf.global)

  abbrev format_or : Option String → Result Error String → Result Error String
  format_or (some n) other = ok n
  format_or none other = other

  unfoldable pub get_crt_name_format : Types.Certificate → Config → Result Error String
  get_crt_name_format crt cnf =
      format_or crt.file_name_format
        (do_get_endpoint crt cnf >>= λ ep. ok (endpoint_crt_name_format ep cnf))

  unfoldable pub get_crt_dir : Types.Certificate → Config → String
  get_crt_dir crt cnf = unwrap_or crt.directory (
      of_global (λ g. unwrap_or g.certificates_directory build.default_cert_dir)
        build.default_cert_dir cnf.global)

-- `AccountContact`
unfoldable pub get_type : AccountContact → String
get_type c = "mailto"

unfoldable pub get_value : AccountContact → String
get_value c = c.mailto

module _ (env : Env) where
  unfoldable pub external_algorithm : Option String → Result Error JwsSignatureAlgorithm
  external_algorithm none = ok default_external_account_jwa
  external_algorithm (some a) = Algorithm.parse env.unicode a

  unfoldable pub check_hmac : JwsSignatureAlgorithm → Result Error (Unit {0})
  check_hmac hs256 = ok tt
  check_hmac hs384 = ok tt
  check_hmac hs512 = ok tt
  check_hmac alg = err (
      from_text
        (Algorithm.to_string alg <> ": invalid signature algorithm for external account binding"))

  -- `ExternalAccount::to_generic`
  unfoldable pub to_external_account : Types.ExternalAccount → Result Error State.ExternalAccount
  to_external_account x = do
    signature_algorithm ← external_algorithm x.signature_algorithm
    check_hmac signature_algorithm
    key ← Result.map_err from_base64 (env.crypto.b64_decode x.key)
    ok (record { identifier = x.identifier; key = key; signature_algorithm = signature_algorithm })

  unfoldable pub external_of :
      Option Types.ExternalAccount → Result Error (Option State.ExternalAccount)
  external_of none = ok none
  external_of (some a) = to_external_account a >>= λ x. ok (some x)

-- `push_subject_attr!`, in front of the attributes that follow
abbrev push_attr :
    SubjectAttribute
    → Option String
    → List (SubjectAttribute × String)
    → List (SubjectAttribute × String)
push_attr attr none more = more
push_attr attr (some v) more = (attr, v) ∷ more

-- `SubjectAttributes::to_generic`
unfoldable pub to_subject_attributes : SubjectAttributes → List (SubjectAttribute × String)
to_subject_attributes a = push_attr Subject.country_name a.country_name (
    push_attr Subject.generation_qualifier a.generation_qualifier (
      push_attr Subject.given_name a.given_name (
        push_attr Subject.initials a.initials (
          push_attr Subject.locality_name a.locality_name (
            push_attr Subject.name a.name (
              push_attr Subject.organization_name a.organization_name (
                push_attr Subject.organizational_unit_name a.organizational_unit_name (
                  push_attr Subject.pkcs9_email_address a.pkcs9_email_address (
                    push_attr Subject.postal_address a.postal_address (
                      push_attr Subject.postal_code a.postal_code (
                        push_attr Subject.state_or_province_name a.state_or_province_name (
                          push_attr Subject.street a.street (
                            push_attr Subject.surname a.surname
                              (push_attr Subject.title a.title []))))))))))))))
