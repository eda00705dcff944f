-- ===== src/Tacd/Extension.antt =====
-- The certificate with the extension acmeIdentifier in acme_common/src/crypto/openssl_certificate.rs.
use acmed.Base.{ℕ, ◌-◌, String, Bool, true, false, List, [], ◌∷◌, split, is_empty}
use acmed.Base.Result
use acmed.Base.Result.{Result, ok, err, ◌>>=◌, ◌>>◌}
use acmed.Error.{Error, from_text, from_openssl}
use acmed.Crypto.Hash.{HashFunction}
use acmed.Crypto.X509.{get_digest}
use acmed.World.{World, Bytes}
use acmed.World.Env.{KeyPair}
use acmed.World.Terminal.{Terminal}

-- crypto.rs
abbrev pub invalid_ext_msg : String
invalid_ext_msg = "invalid acmeIdentifier extension"

abbrev pub crt_nb_days_validity : ℕ
crt_nb_days_validity = 7

abbrev crt_serial_nb_bits : ℕ
crt_serial_nb_bits = 32

abbrev x509_version : ℕ
x509_version = 2

-- `pop` twice: the name and the value, if nothing is left over
unfoldable pub two_parts : List String → Result Error (String × String)
two_parts [] = err (from_text invalid_ext_msg)
two_parts (value ∷ []) = err (from_text invalid_ext_msg)
two_parts (name ∷ value ∷ []) = ok (name, value)
two_parts (x ∷ name ∷ value ∷ more) = err (from_text invalid_ext_msg)

unfoldable pub parse_ext : String → Result Error (String × String)
parse_ext acme_ext = two_parts (split b'=' acme_ext)

abbrev pub or_invalid : {A : Type 0} → Result String A → Result Error A
or_invalid r = Result.map_err (λ _. from_text invalid_ext_msg) r

module _ (os : Terminal) where
  unfoldable pub add_acme_ext : Bool → Bytes → String → Result Error Bytes
  add_acme_ext true builder acme_ext = ok builder
  add_acme_ext false builder acme_ext = do
    parts ← parse_ext acme_ext
    extension ← or_invalid (os.new_extension builder parts.0 parts.1)
    or_invalid (os.append_extension builder extension)

  unfoldable pub gen_certificate :
      World → String → KeyPair → HashFunction → String → Result Error Bytes
  gen_certificate w domain key_pair digest acme_ext = do
    builder ← Result.map_err from_openssl (
        os.new_builder w (record {
          organization = "ACMEd";
          common_name = "ACMEd TLS-ALPN-01 Authority";
          version = x509_version;
          serial_bits = crt_serial_nb_bits - 1;
          public_key = key_pair.inner_key;
          days = crt_nb_days_validity;
          dns = domain;
        }))
    builder ← add_acme_ext (is_empty acme_ext) builder acme_ext
    Result.map_err from_openssl
        (os.sign_certificate builder key_pair.inner_key (get_digest digest key_pair))
