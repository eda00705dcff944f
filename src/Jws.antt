-- ===== src/Jws.antt =====
-- acmed/src/jws.rs
pub mod Algorithms
use acmed.Base.{String, ◌<>◌, Option, none, some}
use acmed.Base.Result
use acmed.Base.Result.{Result, ok, err, ◌>>=◌, ◌>>◌}
use acmed.Error.{Error, from_text, from_json, from_openssl}
use acmed.Crypto.Algorithm
use acmed.Crypto.Algorithm.{
  JwsSignatureAlgorithm, hs256, hs384, hs512, rs256, es256, es384, es512, ed25519, ed448,
}
use acmed.Crypto.KeyType
use acmed.Crypto.KeyType.{KeyType, check_alg_compatibility}
use acmed.Crypto.Hash.{HashFunction, sha256, sha384, sha512}
use acmed.World.{Bytes, generated}
use acmed.Crypto.Keys.{sign}
use acmed.Crypto.Keys.Jwk.{jwk_public_key}
use acmed.World.Env.{Env, KeyPair, JwsData, JwsProtectedHeader}

module _ (env : Env) where
  unfoldable pub get_jws_data :
      KeyPair → JwsSignatureAlgorithm → String → Bytes → Result Error String
  get_jws_data key_pair sign_alg header payload = do
    let protected = env.crypto.b64_encode (env.as_bytes header)
    let payload64 = env.crypto.b64_encode payload
    let signing_input = protected <> ("." <> payload64)
    signature ← sign env key_pair sign_alg (env.as_bytes signing_input)
    Result.map_err from_json (
        env.json.write_jws (record {
          protected = protected;
          payload = payload64;
          signature = env.crypto.b64_encode signature;
        }))

  unfoldable pub encode_jwk :
      KeyPair → JwsSignatureAlgorithm → Bytes → String → Option String → Result Error String
  encode_jwk key_pair sign_alg payload url nonce = do
    jwk ← jwk_public_key env key_pair
    protected ← Result.map_err from_json (
        env.json.write_protected (record {
          alg = Algorithm.to_string sign_alg;
          jwk = some jwk;
          kid = none;
          nonce = nonce;
          url = url;
        }))
    get_jws_data key_pair sign_alg protected payload

  unfoldable pub encode_kid :
      KeyPair → JwsSignatureAlgorithm → String → Bytes → String → String → Result Error String
  encode_kid key_pair sign_alg key_id payload url nonce = do
    protected ← Result.map_err from_json (
        env.json.write_protected (record {
          alg = Algorithm.to_string sign_alg;
          jwk = none;
          kid = some key_id;
          nonce = some nonce;
          url = url;
        }))
    get_jws_data key_pair sign_alg protected payload

  mac_hash : JwsSignatureAlgorithm → Result Error HashFunction
  mac_hash hs256 = ok sha256
  mac_hash hs384 = ok sha384
  mac_hash hs512 = ok sha512
  mac_hash sign_alg =
      err (from_text (Algorithm.to_string sign_alg <> ": not a HMAC-based signature algorithm"))

  unfoldable pub encode_kid_mac :
      Bytes → JwsSignatureAlgorithm → String → Bytes → String → Result Error String
  unfolding mac_hash
  encode_kid_mac key sign_alg key_id payload url = do
    header ← Result.map_err from_json (
        env.json.write_protected (record {
          alg = Algorithm.to_string sign_alg;
          jwk = none;
          kid = some key_id;
          nonce = none;
          url = url;
        }))
    let protected = env.crypto.b64_encode (env.as_bytes header)
    let payload64 = env.crypto.b64_encode payload
    let signing_input = protected <> ("." <> payload64)
    hash_func ← mac_hash sign_alg
    signature ←
        Result.map_err from_openssl (env.crypto.hmac hash_func key (env.as_bytes signing_input))
    Result.map_err from_json (
        env.json.write_jws (record {
          protected = protected;
          payload = payload64;
          signature = env.crypto.b64_encode signature;
        }))
