-- ===== src/Crypto/Algorithm.antt =====
-- acme_common/src/crypto/jws_signature_algorithm.rs, built with the flags `ed25519` and `ed448`.
use acmed.Base.{
  ℕ, String, ◌<>◌, ◌≡◌, ◌↔◌, Bool, true, arith, ◌==◌, number_eq, PartialEq, string_eq,
  if◌then◌else◌, to_lowercase,
}
use acmed.Base.Result.{Result, ok, err}
use acmed.Error.{Error, from_text}

pub data JwsSignatureAlgorithm : Type 0 where
  hs256 hs384 hs512 rs256 es256 es384 es512 ed25519 ed448 : JwsSignatureAlgorithm

-- The derived `PartialEq` compares discriminants.
discriminant : JwsSignatureAlgorithm → ℕ
discriminant hs256 = 0
discriminant hs384 = 1
discriminant hs512 = 2
discriminant rs256 = 3
discriminant es256 = 4
discriminant es384 = 5
discriminant es512 = 6
discriminant ed25519 = 7
discriminant ed448 = 8

unfoldable pub algorithm_beq : JwsSignatureAlgorithm → JwsSignatureAlgorithm → Bool
unfolding discriminant
algorithm_beq a b = discriminant a == discriminant b

pub algorithm_beq_iff : (a b : JwsSignatureAlgorithm) → (algorithm_beq a b ≡ true) ↔ (a ≡ b)
unfolding algorithm_beq
algorithm_beq_iff a b = ground arith

instance abbrev pub algorithm_eq : PartialEq JwsSignatureAlgorithm
algorithm_eq = record { beq = algorithm_beq; beq_iff = algorithm_beq_iff }

-- `FromStr`
unfoldable pub parse : (String → String) → String → Result Error JwsSignatureAlgorithm
parse unicode s =
    let name = to_lowercase unicode s in
    if name == "hs256"
    then ok hs256
    else if name == "hs384"
    then ok hs384
    else if name == "hs512"
    then ok hs512
    else if name == "rs256"
    then ok rs256
    else if name == "es256"
    then ok es256
    else if name == "es384"
    then ok es384
    else if name == "es512"
    then ok es512
    else if name == "ed25519"
    then ok ed25519
    else if name == "ed448"
    then ok ed448
    else err (from_text (s <> ": unknown algorithm."))

-- `Display`
unfoldable pub to_string : JwsSignatureAlgorithm → String
to_string hs256 = "HS256"
to_string hs384 = "HS384"
to_string hs512 = "HS512"
to_string rs256 = "RS256"
to_string es256 = "ES256"
to_string es384 = "ES384"
to_string es512 = "ES512"
to_string ed25519 = "Ed25519"
to_string ed448 = "Ed448"
