-- ===== src/Crypto/Keys/Generate.antt =====
-- How acme_common/src/crypto/openssl_keys.rs makes keys.
use acmed.Base.{◌<>◌}
use acmed.Base.Result
use acmed.Base.Exec.{pure, lift, gets, ◌>>=◌, ◌>>◌}
use acmed.Error.{from_text}
use acmed.Crypto.KeyType
use acmed.Crypto.KeyType.{KeyType}
use acmed.World.{generated}
use acmed.World.Io.{Io, log}
use acmed.World.Env.{
  Env, KeyPair, prime256v1, secp384r1, secp521r1, Generation, rsa_pair, ec_pair, ed25519_pair,
  ed448_pair,
}

-- `gen_rsa_pair`, `gen_ec_pair`, `gen_ed25519_pair` or `gen_ed448_pair`
unfoldable pub generation : KeyType → Generation
generation KeyType.rsa2048 = rsa_pair 2048
generation KeyType.rsa4096 = rsa_pair 4096
generation KeyType.ecdsa_p256 = ec_pair prime256v1
generation KeyType.ecdsa_p384 = ec_pair secp384r1
generation KeyType.ecdsa_p521 = ec_pair secp521r1
generation KeyType.ed25519 = ed25519_pair
generation KeyType.ed448 = ed448_pair

unfoldable pub gen_keypair : Env → KeyType → Io KeyPair
gen_keypair env key_type = do
  made ← gets (λ w. env.crypto.generate w (generation key_type))
  log generated
  inner_key ← lift (
      Result.map_err
        (λ _. from_text ("unable to generate a " <> (KeyType.to_string key_type <> " key pair")))
        made)
  pure (record { key_type = key_type; inner_key = inner_key })
