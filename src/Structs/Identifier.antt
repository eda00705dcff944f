-- ===== src/Structs/Identifier.antt =====
-- The identifier types of acmed/src/identifier.rs and of acmed/src/acme_proto/structs/order.rs, and
-- the challenge types of acmed/src/acme_proto.rs.
use acmed.Base.{
  ℕ, String, ◌<>◌, ◌≡◌, ◌↔◌, Bool, true, arith, ◌==◌, number_eq, string_eq, PartialEq,
  if◌then◌else◌, to_lowercase,
}
use acmed.Base.Result.{Result, ok, err}
use acmed.Base.Dict.{Dict}
use acmed.Error.{Error, from_text}

pub data IdentifierType : Type 0 where
  dns ip : IdentifierType

unfoldable pub type_to_string : IdentifierType → String
type_to_string dns = "dns"
type_to_string ip = "ip"

abbrev pub is_dns : IdentifierType → Bool
is_dns dns = true
is_dns ip = Bool.false

-- `acme_proto::Challenge`
pub data Challenge : Type 0 where
  http01 dns01 tls_alpn01 : Challenge

discriminant : Challenge → ℕ
discriminant http01 = 0
discriminant dns01 = 1
discriminant tls_alpn01 = 2

unfoldable pub challenge_beq : Challenge → Challenge → Bool
unfolding discriminant
challenge_beq a b = discriminant a == discriminant b

pub challenge_beq_iff : (a b : Challenge) → (challenge_beq a b ≡ true) ↔ (a ≡ b)
unfolding challenge_beq
challenge_beq_iff a b = ground arith

instance abbrev pub challenge_eq : PartialEq Challenge
challenge_eq = record { beq = challenge_beq; beq_iff = challenge_beq_iff }

-- `Challenge::from_str`
unfoldable pub parse : (String → String) → String → Result Error Challenge
parse unicode s =
    let name = to_lowercase unicode s in
    if name == "http-01"
    then ok http01
    else if name == "dns-01"
    then ok dns01
    else if name == "tls-alpn-01"
    then ok tls_alpn01
    else err (from_text (s <> ": unknown challenge."))

-- `Display for Challenge`
unfoldable pub to_string : Challenge → String
to_string http01 = "http-01"
to_string dns01 = "dns-01"
to_string tls_alpn01 = "tls-alpn-01"

-- `identifier::Identifier`
pub record Identifier : Type 0 where
  pub id_type : IdentifierType
  pub value : String
  pub challenge : Challenge
  pub env : Dict String

-- `structs::order::Identifier`
pub record OrderIdentifier : Type 0 where
  pub id_type : IdentifierType
  pub value : String

abbrev pub from_generic : Identifier → OrderIdentifier
from_generic id = record { id_type = id.id_type; value = id.value }

-- `Display for structs::Identifier`
unfoldable pub describe : OrderIdentifier → String
describe id = type_to_string id.id_type <> (":" <> id.value)
