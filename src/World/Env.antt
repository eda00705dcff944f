-- ===== src/World/Env.antt =====
-- The operating system, the network and the third-party packages, as functions that the program's
-- functions take. A failure is the text of the package's own error, where `error.rs` converts it.
use acmed.Base.{ℕ, String, Bool, Option, List}
use acmed.Base.Result.{Result}
use acmed.Base.Dict.{Dict}
use acmed.Crypto.KeyType.{KeyType}
use acmed.Crypto.Hash.{HashFunction}
use acmed.Crypto.Subject.{SubjectAttribute}
use acmed.Structs.Problem.{HttpApiError}
use acmed.Structs.Order.{NewOrder, Order}
use acmed.Structs.Authorization.{Authorization}
use acmed.Structs.Directory.{Directory}
use acmed.Structs.Account.{Account, AccountResponse, AccountUpdate, AccountKeyRollover}
use acmed.Structs.Storage.{AccountStorage}
use acmed.World.{Bytes, File, World, Command, Request, Response}

-- hooks.rs: what a template is rendered with
pub record PostOperationHookData : Type 0 where
  pub identifiers : List String
  pub key_type : String
  pub status : String
  pub is_success : Bool
  pub certificate_path : String
  pub private_key_path : String
  pub env : Dict String

pub record ChallengeHookData : Type 0 where
  pub identifier : String
  pub identifier_tls_alpn : String
  pub challenge : String
  pub file_name : String
  pub proof : String
  pub is_clean_hook : Bool
  pub env : Dict String

pub record FileStorageHookData : Type 0 where
  pub file_name : String
  pub file_directory : String
  pub file_path : String
  pub env : Dict String

-- storage.rs
pub record CertFileFormat : Type 0 where
  pub ext : String
  pub file_type : String
  pub key_type : String
  pub name : String

pub data TemplateData : Type 0 where
  post_operation : PostOperationHookData → TemplateData
  challenge : ChallengeHookData → TemplateData
  file_storage : FileStorageHookData → TemplateData
  cert_file : CertFileFormat → TemplateData

-- jws.rs
pub record JwsData : Type 0 where
  pub protected : String
  pub payload : String
  pub signature : String

pub record JwsProtectedHeader : Type 0 where
  pub alg : String
  pub jwk : Option String
  pub kid : Option String
  pub nonce : Option String
  pub url : String

-- openssl_keys.rs: an OpenSSL key is known by its DER form.
pub record KeyPair : Type 0 where
  pub key_type : KeyType
  pub inner_key : Bytes

pub data IpAddr : Type 0 where
  v4 v6 : List ℕ → IpAddr

pub data IoCall : Type 0 where
  open_read open_write create read write chown spawn feed wait : String → IoCall

pub record ExitStatus : Type 0 where
  pub success : Bool
  pub code : Option ℕ

-- serde_json
pub record Json : Type 0 where
  pub read_problem : String → Result String HttpApiError
  pub read_directory : String → Result String Directory
  pub read_order : String → Result String Order
  pub read_authorization : String → Result String Authorization
  pub read_account : String → Result String AccountResponse
  -- the text of a value that is read without a type
  pub read_value : String → Result String String
  pub write_new_order : NewOrder → Result String String
  pub write_account : Account → Result String String
  pub write_account_update : AccountUpdate → Result String String
  pub write_rollover : AccountKeyRollover → Result String String
  pub write_protected : JwsProtectedHeader → Result String String
  pub write_jws : JwsData → Result String String
  pub write_csr : String → String
  -- `json!` on an object of texts
  pub write_object : Dict String → String

-- openssl: the kinds of keys and the curves that the program knows, and what it makes keys from
pub data PkeyId : Type 0 where
  rsa ec ed25519 ed448 other : PkeyId

-- A curve that has no name of its own here is known by how it is shown.
pub data Curve : Type 0 where
  prime256v1 secp384r1 secp521r1 : Curve
  other_curve : String → Curve

pub data Generation : Type 0 where
  rsa_pair : ℕ → Generation
  ec_pair : Curve → Generation
  ed25519_pair ed448_pair : Generation

-- openssl and base64. A key is known by its DER form, a big number is a number.
pub record Crypto : Type 0 where
  pub hash : HashFunction → Bytes → Bytes
  pub hmac : HashFunction → Bytes → Bytes → Result String Bytes
  pub b64_encode : Bytes → String
  pub b64_decode : String → Result String Bytes
  pub generate : World → Generation → Result String Bytes
  pub public_key_to_pem : Bytes → Result String Bytes
  pub private_key_to_pem : Bytes → Result String Bytes
  pub private_key_from_pem : Bytes → Result String Bytes
  pub private_key_to_der : Bytes → Result String Bytes
  pub private_key_from_der : Bytes → Result String Bytes
  pub key_id : Bytes → PkeyId
  -- the RSA key in bytes, and its exponent and modulus
  pub rsa_size : Bytes → Result String ℕ
  pub rsa_numbers : Bytes → Result String (ℕ × ℕ)
  -- the curve of an EC key, and the coordinates of its point
  pub curve_name : Bytes → Result String (Option Curve)
  pub affine_coordinates : Bytes → Curve → Result String (ℕ × ℕ)
  pub to_vec : ℕ → Bytes
  pub to_vec_padded : ℕ → ℕ → Result String Bytes
  -- a signature with a digest or without; and the two numbers of one with an EC key
  pub sign : Option HashFunction → Bytes → Bytes → Result String Bytes
  pub ecdsa_sign : Bytes → Bytes → Result String (ℕ × ℕ)

-- nix: the users and groups of the system, and `str::parse::<u32>`
pub record Unix : Type 0 where
  pub parse_u32 : String → Option ℕ
  pub user : World → String → Result String (Option ℕ)
  pub group : World → String → Result String (Option ℕ)

-- One name of a certificate, and a difference of times: its days and seconds are the 32 bits of
-- a signed integer.
pub record GeneralName : Type 0 where
  pub dnsname : Option String
  pub ipaddress : Option Bytes

pub record TimeDiff : Type 0 where
  pub days : ℕ
  pub secs : ℕ

-- What OpenSSL builds and signs a request from; no digest stands for the null digest.
pub record CsrRequest : Type 0 where
  pub key_pair : KeyPair
  pub digest : Option HashFunction
  pub domains : List String
  pub ips : List String
  pub subject_attributes : List (SubjectAttribute × String)

-- openssl: certificates, known by their PEM form, and certificate requests
pub record X509 : Type 0 where
  pub from_pem : Bytes → Result String (Unit {0})
  pub diff : World → Bytes → Result String TimeDiff
  pub subject_alt_names : Bytes → Option (List GeneralName)
  pub build_csr : World → CsrRequest → Result String Bytes
  pub csr_to_pem : Bytes → Result String String
  pub csr_to_der : Bytes → Result String Bytes

pub record Env : Type 0 where
  pub x509 : X509
  -- rand: a number below the bound, which is not 0
  pub gen_range : World → ℕ → ℕ
  pub json : Json
  pub unix : Unix
  pub crypto : Crypto
  -- reqwest
  pub load_certificate : Bytes → Result String (Unit {0})
  pub build_client : List String → Result String (Unit {0})
  pub send : World → Request → Result String Response
  pub text : World → Response → Result String String
  -- the operating system
  pub io_error : World → IoCall → Option String
  pub exit_status : World → Command → ExitStatus
  -- the files once a command has ended: it may have changed any of them
  pub files_after : World → Command → String → Option File
  pub lines : Bytes → Result String (List String)
  pub vars : Dict String
  pub now : World → ℕ
  -- bincode
  pub serialize : AccountStorage → Result String Bytes
  pub deserialize : Bytes → Result String AccountStorage
  -- minijinja, and the text functions of the standard library
  pub render : String → TemplateData → Result String String
  pub as_bytes : String → Bytes
  pub from_utf8 : Bytes → Result String String
  pub unicode : String → String
  pub punycode : String → Result String String
  pub parse_ip : String → Result String IpAddr
  pub show_ip : IpAddr → String
  -- regex
  pub is_match : String → String → Bool
