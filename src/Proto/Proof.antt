-- ===== src/Proto/Proof.antt =====
-- The proofs of the challenges, in acmed/src/acme_proto/structs/authorization.rs.
use acmed.Base.{ℕ, ◌/◌, ◌%◌, String, ◌<>◌, map, join, length}
use acmed.Base.Result.{Result, ok, ◌>>=◌}
use acmed.Error.{Error}
use acmed.Crypto.Hash.{sha256}
use acmed.Structs.Authorization.{TokenChallenge, Challenge, http01, dns01, tls_alpn01, unknown}
use acmed.World.{Bytes}
use acmed.Crypto.Keys.Jwk.{jwk_public_key_thumbprint}
use acmed.World.Env.{Env, KeyPair}
use acmed.Identifier.{hex_digit}

-- `{:02x}` of a number below 256
abbrev pub hex2 : ℕ → String
hex2 n = hex_digit (n / 16) <> hex_digit (n % 16)

abbrev acme_ext_name : String
acme_ext_name = "1.3.6.1.5.5.7.1.31"

-- the value of the extension acmeIdentifier for a digest
unfoldable pub acme_ext : Bytes → String
acme_ext proof =
    let proof_str = join ":" (map hex2 proof) in
    let value =
      "critical,DER:" <> (hex2 4 <> (":" <> (hex2 (length proof) <> (":" <> proof_str)))) in
    acme_ext_name <> ("=" <> value)

module _ (env : Env) where
  unfoldable pub key_authorization : TokenChallenge → KeyPair → Result Error String
  key_authorization tc key_pair = do
    thumbprint ← jwk_public_key_thumbprint env key_pair
    ok (
        tc.token
        <> ("." <> env.crypto.b64_encode (env.crypto.hash sha256 (env.as_bytes thumbprint))))

  unfoldable pub get_proof : Challenge → KeyPair → Result Error String
  get_proof (http01 tc) key_pair = key_authorization tc key_pair
  get_proof (dns01 tc) key_pair = do
    ka ← key_authorization tc key_pair
    ok (env.crypto.b64_encode (env.crypto.hash sha256 (env.as_bytes ka)))
  get_proof (tls_alpn01 tc) key_pair = do
    ka ← key_authorization tc key_pair
    ok (acme_ext (env.crypto.hash sha256 (env.as_bytes ka)))
  get_proof unknown key_pair = ok ""
