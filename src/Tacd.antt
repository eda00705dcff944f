-- ===== src/Tacd.antt =====
-- tacd/src/main.rs, the server that answers a TLS-ALPN challenge, and its certificate in
-- acme_common/src/crypto/openssl_certificate.rs.
pub mod Extension
pub mod Server
pub mod Composed
use acmed.Base.{String, ◌<>◌, Option, none, some, List, [], ◌∷◌, Bool, true, false, trim, unwrap_or}
use acmed.Base.Result
use acmed.Base.Result.{Result, ok, err, panic}
use acmed.Base.Exec.{Exec, pure, lift, gets, ◌>>=◌, ◌>>◌}
use acmed.Error.{Error, from_io, from_text}
use acmed.Crypto.KeyType
use acmed.Crypto.KeyType.{KeyType, ecdsa_p256}
use acmed.Crypto.Hash
use acmed.Crypto.Hash.{HashFunction, sha256}
use acmed.World.{World, Bytes}
use acmed.World.Env.{Env, KeyPair, read}
use acmed.World.Io.{Io, open_file, attempt_io}
use acmed.World.Terminal.{Terminal, Matches}
use acmed.Identifier.{to_idna}
use acmed.Common.{init_server, clean_pid_file, exit_2}
use acmed.Common.Logs.{set_log_system}
use acmed.Crypto.Keys.Generate.{gen_keypair}
use acmed.Tacd.Extension.{gen_certificate}
use acmed.Tacd.Server.{start}

abbrev pub default_listen_addr : String
default_listen_addr = "127.0.0.1:5001"

abbrev pub default_crt_key_type : KeyType
default_crt_key_type = ecdsa_p256

abbrev pub default_crt_digest : HashFunction
default_crt_digest = sha256

module _ (env : Env) (os : Terminal) where
  read_input : Option String → Io String
  read_input none = do line ← gets os.read_line; lift (Result.map_err from_io line)
  read_input (some p) = do
    raw ← open_file env p
    attempt_io env (read p)
    lift (Result.map_err from_io (os.read_text raw))

  unfoldable pub read_line : Option String → Io String
  unfolding read_input
  read_line path = do input ← read_input path; pure (trim input)

  value_or_line : Matches → String → Option String → Io String
  value_or_line cnf opt_file (some v) = pure v
  value_or_line cnf opt_file none = do path ← lift (cnf.get_string opt_file); read_line path

  unfoldable pub get_acme_value : Matches → String → String → Io String
  unfolding value_or_line
  get_acme_value cnf opt opt_file = do v ← lift (cnf.get_string opt); value_or_line cnf opt_file v

  abbrev key_type_of : Option String → Result Error KeyType
  key_type_of none = ok default_crt_key_type
  key_type_of (some alg) = KeyType.parse env.unicode alg

  abbrev digest_of : Option String → Result Error HashFunction
  digest_of none = ok default_crt_digest
  digest_of (some alg) = Hash.parse env.unicode alg

  -- `X509Certificate::from_acme_ext`
  unfoldable pub from_acme_ext : String → String → KeyType → HashFunction → Io (KeyPair × Bytes)
  from_acme_ext domain acme_ext key_type digest = do
    key_pair ← gen_keypair env key_type
    made ← gets (λ w. gen_certificate os w domain key_pair digest acme_ext)
    cert ← lift made
    pure (key_pair, cert)

  unfoldable pub init : Matches → Io (Unit {0})
  init cnf = do
    pid_file ← lift (cnf.get_string "pid-file")
    init_server env os (cnf.get_flag "foreground") pid_file
    domain ← get_acme_value cnf "domain" "domain-file"
    domain ← lift (to_idna env domain)
    ext ← get_acme_value cnf "acme-ext" "acme-ext-file"
    listen ← lift (cnf.get_string "listen")
    alg ← lift (cnf.get_str "crt-signature-alg")
    crt_signature_alg ← lift (key_type_of alg)
    digest ← lift (cnf.get_str "crt-digest")
    crt_digest ← lift (digest_of digest)
    made ← from_acme_ext domain ext crt_signature_alg crt_digest
    start os (unwrap_or listen default_listen_addr) made.1 made.0

  abbrev exit_1 : Result Error (Unit {0}) → Result Error (Unit {0})
  exit_1 (panic m) = panic m
  exit_1 _ = panic "exit 1"

  -- the file of the process goes, whether or not that works
  unfoldable pub clean_up : Matches → Io (Unit {0})
  clean_up cnf w =
      let (r, w') = (lift (cnf.get_string "pid-file") >>= clean_pid_file env os) w in (exit_1 r, w')

  abbrev after_init : Matches → Result Error (Unit {0}) → Io (Unit {0})
  after_init cnf (ok _) = pure tt
  after_init cnf (err e) = clean_up cnf
  after_init cnf (panic m) = lift (panic m)

  run_init : Matches → Io (Unit {0})
  run_init cnf w = let (r, w') = init cnf w in after_init cnf r w'

  -- `main`, once the command line is read
  unfoldable pub main : Matches → Io (Unit {0})
  unfolding run_init
  main cnf = do
    level ← lift (cnf.get_string "log-level")
    lift (exit_2 (set_log_system os level (cnf.get_flag "to-syslog") (cnf.get_flag "to-stderr")))
    run_init cnf
