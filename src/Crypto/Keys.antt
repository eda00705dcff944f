-- ===== src/Crypto/Keys.antt =====
-- acme_common/src/crypto/openssl_keys.rs: key pairs, what they sign, and how they are made and read.
pub mod Generate
pub mod Jwk
pub mod Length
use acmed.Base.{
  ℕ, ◌*◌, ◌-◌, String, ◌<>◌, Option, none, some, List, [], ◌∷◌, ◌++◌, ltb, show, length, replicate,
  if◌then◌else◌, ◌==◌, number_eq,
}
use acmed.Base.Result
use acmed.Base.Result.{Result, ok, err, panic, ◌>>=◌, ◌>>◌}
use acmed.Error.{Error, from_text, from_openssl}
use acmed.Crypto.Algorithm
use acmed.Crypto.Algorithm.{
  JwsSignatureAlgorithm, hs256, hs384, hs512, rs256, es256, es384, es512, ed25519, ed448,
}
use acmed.Crypto.KeyType
use acmed.Crypto.KeyType.{KeyType, check_alg_compatibility}
use acmed.Crypto.Hash.{HashFunction, sha256, sha384, sha512}
use acmed.World.{Bytes}
use acmed.World.Env.{Env, KeyPair, PkeyId, Curve, prime256v1, secp384r1, secp521r1, other_curve}

-- `get_key_type!`
abbrev rsa_type : ℕ → Result Error KeyType
rsa_type s =
    if s == 256
    then ok KeyType.rsa2048
    else if s == 512
    then ok KeyType.rsa4096
    else err (from_text (show (s * 8) <> ": unsupported RSA key size"))

abbrev ec_type : Option Curve → Result Error KeyType
ec_type (some prime256v1) = ok KeyType.ecdsa_p256
ec_type (some secp384r1) = ok KeyType.ecdsa_p384
ec_type (some secp521r1) = ok KeyType.ecdsa_p521
ec_type (some (other_curve nid)) = err (from_text (nid <> ": unsupported EC key"))
ec_type none = err (from_text "unsupported EC key")

module _ (env : Env) where
  abbrev type_of_id : Bytes → PkeyId → Result Error KeyType
  type_of_id key PkeyId.rsa =
      Result.map_err from_openssl (env.crypto.rsa_size key) >>= λ s. rsa_type s
  type_of_id key PkeyId.ec =
      Result.map_err from_openssl (env.crypto.curve_name key) >>= λ c. ec_type c
  type_of_id key PkeyId.ed25519 = ok KeyType.ed25519
  type_of_id key PkeyId.ed448 = ok KeyType.ed448
  type_of_id key PkeyId.other = err (from_text "unsupported key type")

  unfoldable pub get_key_type : Bytes → Result Error KeyType
  get_key_type key = type_of_id key (env.crypto.key_id key)

  unfoldable pub key_pair_of : Result String Bytes → Result Error KeyPair
  key_pair_of read = do
    inner_key ← Result.map_err from_openssl read
    key_type ← get_key_type inner_key
    ok (record { key_type = key_type; inner_key = inner_key })

  unfoldable pub from_der : Bytes → Result Error KeyPair
  from_der der_data = key_pair_of (env.crypto.private_key_from_der der_data)

  unfoldable pub from_pem : Bytes → Result Error KeyPair
  from_pem pem_data = key_pair_of (env.crypto.private_key_from_pem pem_data)

  unfoldable pub private_key_to_der : KeyPair → Result Error Bytes
  private_key_to_der k = Result.map_err from_openssl (env.crypto.private_key_to_der k.inner_key)

  unfoldable pub private_key_to_pem : KeyPair → Result Error Bytes
  private_key_to_pem k = Result.map_err from_openssl (env.crypto.private_key_to_pem k.inner_key)

  unfoldable pub public_key_to_pem : KeyPair → Result Error Bytes
  public_key_to_pem k = Result.map_err from_openssl (env.crypto.public_key_to_pem k.inner_key)

  unfoldable pub sign_rsa : KeyPair → HashFunction → Bytes → Result Error Bytes
  sign_rsa k hash_func d =
      Result.map_err from_openssl (env.crypto.sign (some hash_func) k.inner_key d)

  unfoldable pub sign_eddsa : KeyPair → Bytes → Result Error Bytes
  sign_eddsa k d = Result.map_err from_openssl (env.crypto.sign none k.inner_key d)

  -- `get_ecdsa_sig_part!`: a longer number makes the subtraction wrap around, and no memory is that
  -- large.
  unfoldable pub get_ecdsa_sig_part : ℕ → ℕ → Result Error Bytes
  get_ecdsa_sig_part part size =
      let p = env.crypto.to_vec part in
      if ltb size (length p)
      then panic "capacity overflow"
      else ok (replicate (size - length p) 0 ++ p)

  unfoldable pub sig_size : KeyType → Result Error ℕ
  sig_size KeyType.ecdsa_p256 = ok 32
  sig_size KeyType.ecdsa_p384 = ok 48
  sig_size KeyType.ecdsa_p521 = ok 66
  sig_size _ = err (from_text "not an ecdsa key")

  unfoldable pub sign_ecdsa : KeyPair → HashFunction → Bytes → Result Error Bytes
  sign_ecdsa k hash_func d = do
    let fingerprint = env.crypto.hash hash_func d
    signature ← Result.map_err from_openssl (env.crypto.ecdsa_sign k.inner_key fingerprint)
    size ← sig_size k.key_type
    r ← get_ecdsa_sig_part signature.0 size
    s ← get_ecdsa_sig_part signature.1 size
    ok (r ++ s)

  not_hmac : KeyPair → JwsSignatureAlgorithm → Error
  not_hmac key_pair alg = from_text (
      KeyType.to_string key_pair.key_type
      <> (" key pair cannot be used for the "
          <> (Algorithm.to_string alg <> " signature algorithm")))

  unfoldable pub sign_with : KeyPair → JwsSignatureAlgorithm → Bytes → Result Error Bytes
  unfolding not_hmac
  sign_with k hs256 d = err (not_hmac k hs256)
  sign_with k hs384 d = err (not_hmac k hs384)
  sign_with k hs512 d = err (not_hmac k hs512)
  sign_with k rs256 d = sign_rsa k sha256 d
  sign_with k es256 d = sign_ecdsa k sha256 d
  sign_with k es384 d = sign_ecdsa k sha384 d
  sign_with k es512 d = sign_ecdsa k sha512 d
  sign_with k ed25519 d = sign_eddsa k d
  sign_with k ed448 d = sign_eddsa k d

  -- `KeyPair::sign`
  unfoldable pub sign : KeyPair → JwsSignatureAlgorithm → Bytes → Result Error Bytes
  sign key_pair alg d = do check_alg_compatibility key_pair.key_type alg; sign_with key_pair alg d
