-- ===== src/World/Terminal.antt =====
-- What the two programs take from outside when they start: the packages clap, daemonize, env_logger
-- and syslog, OpenSSL on new certificates, and the standard library on standard input and processes.
use acmed.Base.{ℕ, String, Bool, Option, List}
use acmed.Base.Result.{Result}
use acmed.Base.Exec.{Exec}
use acmed.Crypto.Hash.{HashFunction}
use acmed.Error.{Error}
use acmed.World.{Bytes, World}

-- `ArgMatches`. An argument is looked up by the type of its values, and a wrong type is a panic.
pub record Matches : Type 0 where
  pub get_flag : String → Bool
  pub get_string : String → Result Error (Option String)
  pub get_str : String → Result Error (Option String)
  pub get_many : String → Result Error (Option (List String))

pub data LevelFilter : Type 0 where
  error warn info debug trace : LevelFilter

-- what `X509Builder` has before the extension acmeIdentifier is added
pub record Fields : Type 0 where
  pub organization : String
  pub common_name : String
  pub version : ℕ
  pub serial_bits : ℕ
  pub public_key : Bytes
  pub days : ℕ
  pub dns : String

pub data Listener : Type 0 where
  tcp unix : String → Listener

pub record Terminal : Type 0 where
  pub read_line : World → Result String String
  pub read_text : Bytes → Result String String
  pub process_id : String
  -- a daemon has written its file
  pub daemonize : Option String → Exec World String (Unit {0})
  pub sync_all : World → String → Option String
  pub remove_file : World → String → Option String
  pub init_syslog : LevelFilter → Result String (Unit {0})
  pub init_stderr : LevelFilter → Unit {0}
  -- a builder is known by what it would build
  pub new_builder : World → Fields → Result String Bytes
  pub new_extension : Bytes → String → String → Result String Bytes
  pub append_extension : Bytes → Bytes → Result String Bytes
  pub sign_certificate : Bytes → Bytes → Option HashFunction → Result String Bytes
  -- `SslAcceptor`, from the protocols that it selects, a key and a certificate; a socket of a host
  -- or of a path; the connections, which have no end as long as the listener is there
  pub new_acceptor : String → Bytes → Bytes → Result String (Unit {0})
  pub bind : World → Listener → Result String (Unit {0})
  pub incoming : World → Listener → World
