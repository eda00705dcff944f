-- ===== src/Structs/Problem.antt =====
-- acmed/src/acme_proto/structs/error.rs
use acmed.Base.{
  ℕ, String, ◌<>◌, Bool, ◌||◌, Option, none, some, ◌==◌, number_eq, string_eq, if◌then◌else◌,
  unwrap_or, show,
}
use acmed.Error.{Error, from_text}

pub data AcmeError : Type 0 where
  account_does_not_exist already_revoked bad_csr bad_nonce bad_public_key bad_revocation_reason
        bad_signature_algorithm caa compound connection dns external_account_required
        incorrect_response invalid_contact malformed order_not_ready rate_limited
        rejected_identifier server_internal tls unauthorized unsupported_contact
        unsupported_identifier user_action_required unknown :
      AcmeError

discriminant : AcmeError → ℕ
discriminant account_does_not_exist = 0
discriminant already_revoked = 1
discriminant bad_csr = 2
discriminant bad_nonce = 3
discriminant bad_public_key = 4
discriminant bad_revocation_reason = 5
discriminant bad_signature_algorithm = 6
discriminant caa = 7
discriminant compound = 8
discriminant connection = 9
discriminant dns = 10
discriminant external_account_required = 11
discriminant incorrect_response = 12
discriminant invalid_contact = 13
discriminant malformed = 14
discriminant order_not_ready = 15
discriminant rate_limited = 16
discriminant rejected_identifier = 17
discriminant server_internal = 18
discriminant tls = 19
discriminant unauthorized = 20
discriminant unsupported_contact = 21
discriminant unsupported_identifier = 22
discriminant user_action_required = 23
discriminant unknown = 24

-- The derived `PartialEq` compares discriminants.
unfoldable pub acme_error_beq : AcmeError → AcmeError → Bool
unfolding discriminant
acme_error_beq a b = discriminant a == discriminant b

-- `From<String>`
unfoldable pub from_type : String → AcmeError
from_type s =
    if s == "urn:ietf:params:acme:error:accountDoesNotExist"
    then account_does_not_exist
    else if s == "urn:ietf:params:acme:error:alreadyRevoked"
    then already_revoked
    else if s == "urn:ietf:params:acme:error:badCSR"
    then bad_csr
    else if s == "urn:ietf:params:acme:error:badNonce"
    then bad_nonce
    else if s == "urn:ietf:params:acme:error:badPublicKey"
    then bad_public_key
    else if s == "urn:ietf:params:acme:error:badRevocationReason"
    then bad_revocation_reason
    else if s == "urn:ietf:params:acme:error:badSignatureAlgorithm"
    then bad_signature_algorithm
    else if s == "urn:ietf:params:acme:error:caa"
    then caa
    else if s == "urn:ietf:params:acme:error:compound"
    then compound
    else if s == "urn:ietf:params:acme:error:connection"
    then connection
    else if s == "urn:ietf:params:acme:error:dns"
    then dns
    else if s == "urn:ietf:params:acme:error:externalAccountRequired"
    then external_account_required
    else if s == "urn:ietf:params:acme:error:incorrectResponse"
    then incorrect_response
    else if s == "urn:ietf:params:acme:error:invalidContact"
    then invalid_contact
    else if s == "urn:ietf:params:acme:error:malformed"
    then malformed
    else if s == "urn:ietf:params:acme:error:orderNotReady"
    then order_not_ready
    else if s == "urn:ietf:params:acme:error:rateLimited"
    then rate_limited
    else if s == "urn:ietf:params:acme:error:rejectedIdentifier"
    then rejected_identifier
    else if s == "urn:ietf:params:acme:error:serverInternal"
    then server_internal
    else if s == "urn:ietf:params:acme:error:tls"
    then tls
    else if s == "urn:ietf:params:acme:error:unauthorized"
    then unauthorized
    else if s == "urn:ietf:params:acme:error:unsupportedContact"
    then unsupported_contact
    else if s == "urn:ietf:params:acme:error:unsupportedIdentifier"
    then unsupported_identifier
    else if s == "urn:ietf:params:acme:error:userActionRequired"
    then user_action_required
    else unknown

-- `Display`
unfoldable pub to_string : AcmeError → String
to_string account_does_not_exist = "the request specified an account that does not exist"
to_string already_revoked =
    "the request specified a certificate to be revoked that has already been revoked"
to_string bad_csr = "the CSR is unacceptable (e.g., due to a short key)"
to_string bad_nonce = "the client sent an unacceptable anti-replay nonce"
to_string bad_public_key = "the JWS was signed by a public key the server does not support"
to_string bad_revocation_reason = "the revocation reason provided is not allowed by the server"
to_string bad_signature_algorithm =
    "the JWS was signed with an algorithm the server does not support"
to_string caa =
    "Certification Authority Authorization (CAA) records forbid the CA from issuing a certificate"
to_string compound = "specific error conditions are indicated in the \"subproblems\" array"
to_string connection = "the server could not connect to validation target"
to_string dns = "there was a problem with a DNS query during identifier validation"
to_string external_account_required =
    "the request must include a value for the \"externalAccountBinding\" field"
to_string incorrect_response = "response received didn't match the challenge's requirements"
to_string invalid_contact = "a contact URL for an account was invalid"
to_string malformed = "the request message was malformed"
to_string order_not_ready =
    "the request attempted to finalize an order that is not ready to be finalized"
to_string rate_limited = "the request exceeds a rate limit"
to_string rejected_identifier = "the server will not issue certificates for the identifier"
to_string server_internal = "the server experienced an internal error"
to_string tls = "the server received a TLS error during validation"
to_string unauthorized = "the client lacks sufficient authorization"
to_string unsupported_contact = "a contact URL for an account used an unsupported protocol scheme"
to_string unsupported_identifier = "an identifier is of an unsupported type"
to_string user_action_required = "visit the \"instance\" URL and take actions specified there"
to_string unknown = "unknown error"

unfoldable pub is_recoverable : AcmeError → Bool
unfolding acme_error_beq
is_recoverable e =
    acme_error_beq e bad_nonce
    || (acme_error_beq e connection
        || (acme_error_beq e dns
            || (acme_error_beq e malformed
                || (acme_error_beq e rate_limited
                    || (acme_error_beq e server_internal || acme_error_beq e tls)))))

pub record HttpApiError : Type 0 where
  pub error_type : Option String
  pub status : Option ℕ
  pub detail : Option String

abbrev pub get_type : HttpApiError → String
get_type e = unwrap_or e.error_type "about:blank"

unfoldable pub get_acme_type : HttpApiError → AcmeError
get_acme_type e = from_type (get_type e)

abbrev with_status : Option ℕ → String → String
with_status none msg = msg
with_status (some s) msg = "status " <> (show s <> (": " <> msg))

-- `Display for HttpApiError`
unfoldable pub describe : HttpApiError → String
describe e = with_status e.status (unwrap_or e.detail (to_string (get_acme_type e)))

-- `From<HttpApiError> for Error`
unfoldable pub to_error : HttpApiError → Error
to_error e = from_text (describe e)
