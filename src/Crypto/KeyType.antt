-- ===== src/Crypto/KeyType.antt =====
-- acme_common/src/crypto/key_type.rs, built with the flags `ed25519` and `ed448`.
use acmed.Base.{
  ℕ, String, ◌<>◌, ◌≡◌, ◌↔◌, Bool, true, List, [], ◌∷◌, arith, ◌==◌, number_eq, PartialEq,
  string_eq, if◌then◌else◌, to_lowercase, replace,
}
use acmed.Base.Result.{Result, ok, err}
use acmed.Error.{Error, from_text}
use acmed.Crypto.Algorithm
use acmed.Crypto.Algorithm.{
  JwsSignatureAlgorithm, rs256, es256, es384, es512, algorithm_beq, algorithm_eq,
}

pub data KeyType : Type 0 where
  rsa2048 rsa4096 ecdsa_p256 ecdsa_p384 ecdsa_p521 ed25519 ed448 : KeyType

discriminant : KeyType → ℕ
discriminant rsa2048 = 0
discriminant rsa4096 = 1
discriminant ecdsa_p256 = 2
discriminant ecdsa_p384 = 3
discriminant ecdsa_p521 = 4
discriminant ed25519 = 5
discriminant ed448 = 6

unfoldable pub key_type_beq : KeyType → KeyType → Bool
unfolding discriminant
key_type_beq a b = discriminant a == discriminant b

pub key_type_beq_iff : (a b : KeyType) → (key_type_beq a b ≡ true) ↔ (a ≡ b)
unfolding key_type_beq
key_type_beq_iff a b = ground arith

instance abbrev pub key_type_eq : PartialEq KeyType
key_type_eq = record { beq = key_type_beq; beq_iff = key_type_beq_iff }

unfoldable pub get_default_signature_alg : KeyType → JwsSignatureAlgorithm
get_default_signature_alg rsa2048 = rs256
get_default_signature_alg rsa4096 = rs256
get_default_signature_alg ecdsa_p256 = es256
get_default_signature_alg ecdsa_p384 = es384
get_default_signature_alg ecdsa_p521 = es512
get_default_signature_alg ed25519 = Algorithm.ed25519
get_default_signature_alg ed448 = Algorithm.ed448

-- `Display`
unfoldable pub to_string : KeyType → String
to_string rsa2048 = "rsa2048"
to_string rsa4096 = "rsa4096"
to_string ecdsa_p256 = "ecdsa-p256"
to_string ecdsa_p384 = "ecdsa-p384"
to_string ecdsa_p521 = "ecdsa-p521"
to_string ed25519 = "ed25519"
to_string ed448 = "ed448"

compatible : KeyType → JwsSignatureAlgorithm → Bool
compatible rsa2048 alg = alg == rs256
compatible rsa4096 alg = alg == rs256
compatible key_type alg = alg == get_default_signature_alg key_type

unfoldable pub check_alg_compatibility : KeyType → JwsSignatureAlgorithm → Result Error (Unit {0})
unfolding compatible
check_alg_compatibility key_type alg =
    if compatible key_type alg
    then ok tt
    else err (
        from_text (
          "incompatible signature algorithm: "
          <> (Algorithm.to_string alg
              <> (" cannot be used with an " <> (to_string key_type <> " key")))))

-- the values that the command line accepts
unfoldable pub list_possible_values : List String
list_possible_values =
    "rsa2048" ∷ "rsa4096" ∷ "ecdsa-p256" ∷ "ecdsa-p384" ∷ "ecdsa-p521" ∷ "ed25519" ∷ "ed448" ∷ []

-- `FromStr`
unfoldable pub parse : (String → String) → String → Result Error KeyType
parse unicode s =
    let name = replace (λ c. c == b'-') "_" (to_lowercase unicode s) in
    if name == "rsa2048"
    then ok rsa2048
    else if name == "rsa4096"
    then ok rsa4096
    else if name == "ecdsa_p256"
    then ok ecdsa_p256
    else if name == "ecdsa_p384"
    then ok ecdsa_p384
    else if name == "ecdsa_p521"
    then ok ecdsa_p521
    else if name == "ed25519"
    then ok ed25519
    else if name == "ed448"
    then ok ed448
    else err (from_text (s <> ": unknown algorithm"))
