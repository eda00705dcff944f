-- ===== src/Config/Types.antt =====
-- The sections of the configuration file, as serde reads them.
use acmed.Base.{ℕ, String, ◌≡◌, ◌↔◌, Bool, true, Option, List, arith, ◌==◌, number_eq, PartialEq}
use acmed.Base.Dict.{Dict}

pub data NamedAcmeResource : Type 0 where
  directory new_nonce new_account new_order new_authz revoke_cert key_change : NamedAcmeResource

resource_discriminant : NamedAcmeResource → ℕ
resource_discriminant directory = 0
resource_discriminant new_nonce = 1
resource_discriminant new_account = 2
resource_discriminant new_order = 3
resource_discriminant new_authz = 4
resource_discriminant revoke_cert = 5
resource_discriminant key_change = 6

unfoldable pub resource_beq : NamedAcmeResource → NamedAcmeResource → Bool
unfolding resource_discriminant
resource_beq a b = resource_discriminant a == resource_discriminant b

pub resource_beq_iff : (a b : NamedAcmeResource) → (resource_beq a b ≡ true) ↔ (a ≡ b)
unfolding resource_beq
resource_beq_iff a b = ground arith

instance abbrev pub resource_eq : PartialEq NamedAcmeResource
resource_eq = record { beq = resource_beq; beq_iff = resource_beq_iff }

pub data HookType : Type 0 where
  file_pre_create file_post_create file_pre_edit file_post_edit challenge_http01
        challenge_http01_clean challenge_dns01 challenge_dns01_clean challenge_tls_alpn01
        challenge_tls_alpn01_clean post_operation :
      HookType

hook_discriminant : HookType → ℕ
hook_discriminant file_pre_create = 0
hook_discriminant file_post_create = 1
hook_discriminant file_pre_edit = 2
hook_discriminant file_post_edit = 3
hook_discriminant challenge_http01 = 4
hook_discriminant challenge_http01_clean = 5
hook_discriminant challenge_dns01 = 6
hook_discriminant challenge_dns01_clean = 7
hook_discriminant challenge_tls_alpn01 = 8
hook_discriminant challenge_tls_alpn01_clean = 9
hook_discriminant post_operation = 10

unfoldable pub hook_type_beq : HookType → HookType → Bool
unfolding hook_discriminant
hook_type_beq a b = hook_discriminant a == hook_discriminant b

pub hook_type_beq_iff : (a b : HookType) → (hook_type_beq a b ≡ true) ↔ (a ≡ b)
unfolding hook_type_beq
hook_type_beq_iff a b = ground arith

instance abbrev pub hook_type_eq : PartialEq HookType
hook_type_eq = record { beq = hook_type_beq; beq_iff = hook_type_beq_iff }

pub record GlobalOptions : Type 0 where
  pub accounts_directory : Option String
  pub cert_file_group : Option String
  pub cert_file_mode : Option ℕ
  pub cert_file_user : Option String
  pub certificates_directory : Option String
  pub env : Dict String
  pub file_name_format : Option String
  pub pk_file_group : Option String
  pub pk_file_mode : Option ℕ
  pub pk_file_user : Option String
  pub random_early_renew : Option String
  pub renew_delay : Option String
  pub root_certificates : Option (List String)

pub record Endpoint : Type 0 where
  pub file_name_format : Option String
  pub name : String
  pub random_early_renew : Option String
  pub rate_limits : List String
  pub renew_delay : Option String
  pub root_certificates : Option (List String)
  pub tos_agreed : Bool
  pub url : String

-- `number` is a `NonZeroU32`.
pub record RateLimit : Type 0 where
  pub name : String
  pub number : ℕ
  pub period : String
  pub acme_resources : List NamedAcmeResource
  pub path : Option String

pub record Hook : Type 0 where
  pub allow_failure : Option Bool
  pub args : Option (List String)
  pub cmd : String
  pub name : String
  pub stderr : Option String
  pub stdin : Option String
  pub stdin_str : Option String
  pub stdout : Option String
  pub hook_type : List HookType

pub record Group : Type 0 where
  pub hooks : List String
  pub name : String

pub record ExternalAccount : Type 0 where
  pub identifier : String
  pub key : String
  pub signature_algorithm : Option String

pub record AccountContact : Type 0 where
  pub mailto : String

pub record Account : Type 0 where
  pub contacts : List AccountContact
  pub env : Dict String
  pub external_account : Option ExternalAccount
  pub hooks : Option (List String)
  pub key_type : Option String
  pub name : String
  pub signature_algorithm : Option String

pub record Identifier : Type 0 where
  pub challenge : String
  pub dns : Option String
  pub env : Dict String
  pub ip : Option String

pub record SubjectAttributes : Type 0 where
  pub country_name : Option String
  pub generation_qualifier : Option String
  pub given_name : Option String
  pub initials : Option String
  pub locality_name : Option String
  pub name : Option String
  pub organization_name : Option String
  pub organizational_unit_name : Option String
  pub pkcs9_email_address : Option String
  pub postal_address : Option String
  pub postal_code : Option String
  pub state_or_province_name : Option String
  pub street : Option String
  pub surname : Option String
  pub title : Option String

pub record Certificate : Type 0 where
  pub account : String
  pub csr_digest : Option String
  pub directory : Option String
  pub endpoint : String
  pub env : Dict String
  pub file_name_format : Option String
  pub hooks : List String
  pub identifiers : List Identifier
  pub key_type : Option String
  pub kp_reuse : Option Bool
  pub name : Option String
  pub random_early_renew : Option String
  pub renew_delay : Option String
  pub subject_attributes : SubjectAttributes

pub record Config : Type 0 where
  pub global : Option GlobalOptions
  pub endpoint : List Endpoint
  pub rate_limit : List RateLimit
  pub hook : List Hook
  pub group : List Group
  pub account : List Account
  pub certificate : List Certificate
  pub included : List String
