-- ===== src/Tests/Names.antt =====
-- Runs of the theorems on names, keys, signatures and identifiers.
use acmed.Base.{
  ℕ, ◌<>◌, ◌≡◌, refl, ◌↔◌, List, [], ◌∷◌, map, join, string_eq, length, replicate, ◌++◌, ◌*◌, arith,
}
use mathlib.Core.List.{reverse}
use acmed.Crypto.Keys.Length.{sign_ecdsa-length}
use acmed.Proto.Proof.{hex2, acme_ext}
use acmed.Tacd.Extension.{parse_ext}
use acmed.Tacd.Composed.{parse_ext-acme_ext}
use acmed.Base.Result.{ok}
use acmed.Crypto.Algorithm
use acmed.Crypto.Algorithm.{JwsSignatureAlgorithm, es256, hs384}
use acmed.Crypto.KeyType
use acmed.Crypto.KeyType.{KeyType, ecdsa_p256, check_alg_compatibility, get_default_signature_alg}
use acmed.Crypto.Hash
use acmed.Crypto.Names.{names_round_trip, check_alg_compatibility_iff}
use acmed.World.{Bytes}
use acmed.World.Env.{KeyPair, v6}
use acmed.Identifier.{arpa_name, hex_digit, supported_challenges}
use acmed.Structs.Identifier.{challenge_eq}
use acmed.Identifier.Arpa.{nibbles, arpa_name-v6}
use acmed.Tests.Outside.{outside}

names_round_trip_example :
    (Algorithm.parse (λ s. s) (Algorithm.to_string es256) ≡ ok es256)
    × (KeyType.parse (λ s. s) (KeyType.to_string ecdsa_p256) ≡ ok ecdsa_p256)
    × (Hash.parse (λ s. s) (Hash.to_string Hash.sha384) ≡ ok Hash.sha384)
names_round_trip_example = names_round_trip (λ s. s) es256 ecdsa_p256 Hash.sha384

check_alg_compatibility_iff_example :
    (check_alg_compatibility ecdsa_p256 es256 ≡ ok tt)
    ↔ (es256 ≡ get_default_signature_alg ecdsa_p256)
check_alg_compatibility_iff_example = check_alg_compatibility_iff ecdsa_p256 es256

abbrev key : KeyPair
key = record { key_type = ecdsa_p256; inner_key = 1 ∷ 2 ∷ [] }

abbrev octets : List ℕ
octets = 32 ∷ 1 ∷ 13 ∷ 184 ∷ []

arpa_name-v6_example :
    arpa_name (v6 octets) ≡ join "." (map hex_digit (reverse (nibbles octets))) <> ".ip6.arpa"
arpa_name-v6_example = arpa_name-v6 octets

abbrev signed : Bytes
signed = replicate 31 0 ++ (8 ∷ (replicate 31 0 ++ (9 ∷ [])))

sign_ecdsa-length_example : length signed ≡ 2 * 32
unfolding acmed.Crypto.Keys.sign_ecdsa acmed.Crypto.Keys.sig_size
    acmed.Crypto.Keys.get_ecdsa_sig_part
sign_ecdsa-length_example = sign_ecdsa-length outside key Hash.sha256 (1 ∷ []) signed refl

parse_ext-acme_ext_example :
    parse_ext (acme_ext (171 ∷ 1 ∷ []))
    ≡ ok ("1.3.6.1.5.5.7.1.31", "critical,DER:" <> ("04" <> (":" <> (hex2 2 <> (":" <> "ab:01")))))
unfolding acmed.Identifier.hex_digit join
parse_ext-acme_ext_example =
    parse_ext-acme_ext (171 ∷ 1 ∷ []) (omega arith, (omega arith, tt)) (omega arith)
