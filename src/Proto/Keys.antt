-- ===== src/Proto/Keys.antt =====
-- acmed/src/acme_proto/certificate.rs: the key pair of a certificate.
use acmed.Base.{if◌then◌else◌}
use acmed.Base.Result.{Result, ok, err, panic}
use acmed.Base.Exec.{pure, lift, ◌>>=◌, ◌>>◌}
use acmed.Error.{Error}
use acmed.World.Env.{Env, KeyPair}
use acmed.World.Io.{Io}
use acmed.Storage.Files.{get_keypair, set_keypair}
use acmed.Crypto.Keys.Generate.{gen_keypair}
use acmed.Certificate.{Certificate}

module _ (env : Env) (cert : Certificate) where
  unfoldable pub gen_key_pair : Io KeyPair
  gen_key_pair = do
    key_pair ← gen_keypair env cert.key_type
    set_keypair env cert.file_manager key_pair
    pure key_pair

  abbrev pub read_key_pair : Io KeyPair
  read_key_pair = get_keypair env cert.file_manager

  -- A key that cannot be read is replaced by a new one.
  abbrev pub or_generate : Result Error KeyPair → Io KeyPair
  or_generate (ok key_pair) = pure key_pair
  or_generate (err _) = gen_key_pair
  or_generate (panic m) = lift (panic m)

  unfoldable pub reuse_key_pair : Io KeyPair
  reuse_key_pair w = let (r, w') = read_key_pair w in or_generate r w'

  unfoldable pub get_key_pair : Io KeyPair
  get_key_pair = if cert.kp_reuse then reuse_key_pair else gen_key_pair
