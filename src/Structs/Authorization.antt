-- ===== src/Structs/Authorization.antt =====
-- acmed/src/acme_proto/structs/authorization.rs: the data and what does not need a key. The
-- proofs of a challenge are in `Challenge`.
use acmed.Base.{String, Bool, true, false, Option, none, some, List, [], ◌∷◌}
use mathlib.Core.Option
use acmed.Error.{Error}
use acmed.Structs.Problem.{HttpApiError, to_error}
use acmed.Structs.Identifier.{OrderIdentifier}
use acmed.Structs.Identifier

pub data AuthorizationStatus : Type 0 where
  pending valid invalid deactivated expired revoked : AuthorizationStatus

-- `Display`
unfoldable pub status_to_string : AuthorizationStatus → String
status_to_string pending = "pending"
status_to_string valid = "valid"
status_to_string invalid = "invalid"
status_to_string deactivated = "deactivated"
status_to_string expired = "expired"
status_to_string revoked = "revoked"

abbrev pub is_valid : AuthorizationStatus → Bool
is_valid valid = true
is_valid _ = false

abbrev pub is_pending : AuthorizationStatus → Bool
is_pending pending = true
is_pending _ = false

pub data ChallengeStatus : Type 0 where
  pending processing valid invalid : ChallengeStatus

pub record TokenChallenge : Type 0 where
  pub url : String
  pub status : Option ChallengeStatus
  pub validated : Option String
  pub error : Option HttpApiError
  pub token : String

pub data Challenge : Type 0 where
  http01 dns01 tls_alpn01 : TokenChallenge → Challenge
  unknown : Challenge

abbrev pub get_url : Challenge → String
get_url (http01 tc) = tc.url
get_url (dns01 tc) = tc.url
get_url (tls_alpn01 tc) = tc.url
get_url unknown = ""

abbrev pub get_file_name : Challenge → String
get_file_name (http01 tc) = tc.token
get_file_name (dns01 _) = ""
get_file_name (tls_alpn01 _) = ""
get_file_name unknown = ""

-- `ApiError for Challenge`
abbrev pub challenge_error : Challenge → Option Error
challenge_error (http01 tc) = Option.map to_error tc.error
challenge_error (dns01 tc) = Option.map to_error tc.error
challenge_error (tls_alpn01 tc) = Option.map to_error tc.error
challenge_error unknown = none

-- `PartialEq<structs::Challenge> for acme_proto::Challenge`
unfoldable pub matches : Identifier.Challenge → Challenge → Bool
matches Identifier.http01 (http01 _) = true
matches Identifier.dns01 (dns01 _) = true
matches Identifier.tls_alpn01 (tls_alpn01 _) = true
matches _ _ = false

pub record Authorization : Type 0 where
  pub identifier : OrderIdentifier
  pub status : AuthorizationStatus
  pub expires : Option String
  pub challenges : List Challenge
  pub wildcard : Option Bool

first_error : List Challenge → Option Error
first_error [] = none
first_error (c ∷ cs) = elim (challenge_error c) [ some e ↦ some e | none ↦ first_error cs ]

-- `ApiError for Authorization`: the error of the first challenge that has one
unfoldable pub get_error : Authorization → Option Error
unfolding first_error
get_error a = first_error a.challenges
