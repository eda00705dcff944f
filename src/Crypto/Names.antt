-- ===== src/Crypto/Names.antt =====
-- Display and FromStr of the three enumerations, and the compatibility test against its description.
use acmed.Base.{String, ◌≡◌, refl, ◌↔◌, List, [], ◌∷◌, map, arith, to_lowercase, replace}
use acmed.Base.Result.{ok, collect}
use acmed.Crypto.Algorithm
use acmed.Crypto.Algorithm.{JwsSignatureAlgorithm, hs256, algorithm_beq}
use acmed.Crypto.KeyType
use acmed.Crypto.KeyType.{
  KeyType, rsa2048, rsa4096, ecdsa_p256, ecdsa_p384, ecdsa_p521, ed25519, ed448,
  check_alg_compatibility, get_default_signature_alg,
}
use acmed.Crypto.Hash
use acmed.Crypto.Hash.{HashFunction, sha256}

-- A signature algorithm is read back from the text that displays it.
pub Algorithm_parse-to_string :
    (unicode : String → String) (a : JwsSignatureAlgorithm)
    → Algorithm.parse unicode (Algorithm.to_string a) ≡ ok a
unfolding Algorithm.parse Algorithm.to_string to_lowercase
Algorithm_parse-to_string unicode hs256 = refl
Algorithm_parse-to_string unicode _ = refl

pub KeyType_parse-to_string :
    (unicode : String → String) (k : KeyType) → KeyType.parse unicode (KeyType.to_string k) ≡ ok k
unfolding KeyType.parse KeyType.to_string to_lowercase replace
KeyType_parse-to_string unicode rsa2048 = refl
KeyType_parse-to_string unicode _ = refl

pub HashFunction_parse-to_string :
    (unicode : String → String) (h : HashFunction) → Hash.parse unicode (Hash.to_string h) ≡ ok h
unfolding Hash.parse Hash.to_string to_lowercase replace
HashFunction_parse-to_string unicode sha256 = refl
HashFunction_parse-to_string unicode _ = refl

-- The three `FromStr` read back what `Display` writes.
pub names_round_trip :
    (unicode : String → String) (a : JwsSignatureAlgorithm) (k : KeyType) (h : HashFunction)
    → (Algorithm.parse unicode (Algorithm.to_string a) ≡ ok a)
      × (KeyType.parse unicode (KeyType.to_string k) ≡ ok k)
      × (Hash.parse unicode (Hash.to_string h) ≡ ok h)
names_round_trip unicode a k h = (
  Algorithm_parse-to_string unicode a,
  KeyType_parse-to_string unicode k,
  HashFunction_parse-to_string unicode h,
)

-- A key may sign with its default algorithm and with no other.
pub check_alg_compatibility_iff :
    (k : KeyType) (a : JwsSignatureAlgorithm)
    → (check_alg_compatibility k a ≡ ok tt) ↔ (a ≡ get_default_signature_alg k)
unfolding check_alg_compatibility get_default_signature_alg algorithm_beq
check_alg_compatibility_iff rsa2048 a = ground arith
check_alg_compatibility_iff _ a = ground arith

-- Every value that the command line of tacd lists is one that `FromStr` accepts, as its own name.
pub list_possible_values_lem :
    (unicode : String → String)
    → (ks : List KeyType) × (collect (KeyType.parse unicode) KeyType.list_possible_values ≡ ok ks)
      × (map KeyType.to_string ks ≡ KeyType.list_possible_values)
unfolding KeyType.parse KeyType.to_string KeyType.list_possible_values to_lowercase replace
list_possible_values_lem unicode =
    (rsa2048 ∷ rsa4096 ∷ ecdsa_p256 ∷ ecdsa_p384 ∷ ecdsa_p521 ∷ ed25519 ∷ ed448 ∷ [], refl, refl)
