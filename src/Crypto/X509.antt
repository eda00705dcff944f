-- ===== src/Crypto/X509.antt =====
-- acme_common/src/crypto/openssl_certificate.rs: certificates as they are read, and requests.
use acmed.Base.{
  ℕ, ◌+◌, ◌*◌, ◌%◌, ◌^◌, String, ◌||◌, Option, none, some, List, [], map, if◌then◌else◌, keep,
  is_some, ltb, length, ◌==◌, number_eq,
}
use acmed.Base.Result
use acmed.Base.Result.{Result, ok, err, ◌>>=◌, ◌>>◌}
use acmed.Error.{Error, from_openssl}
use acmed.Crypto.KeyType.{KeyType}
use acmed.Crypto.Hash.{HashFunction}
use acmed.Crypto.Subject.{SubjectAttribute}
use acmed.World.{World, Bytes}
use acmed.World.Env.{Env, KeyPair, GeneralName, TimeDiff, v4, v6}

-- `X509Certificate`, by the bytes that it was read from
pub record X509Certificate : Type 0 where
  pub inner_cert : Bytes

-- `get_digest`: the Edwards curves have their own.
unfoldable pub get_digest : HashFunction → KeyPair → Option HashFunction
get_digest digest key_pair = elim key_pair.key_type [
  | KeyType.ed25519 ↦ none
  | KeyType.ed448 ↦ none
  | _ ↦ some digest
]

-- `diff.days * 24 * 60 * 60 + diff.secs` on 32 bits, which wrap around
unfoldable pub seconds_left : TimeDiff → ℕ
seconds_left diff = (diff.days * 86400 + diff.secs) % 2 ^ 32

-- The lower half of the bit patterns are the numbers from 0 on.
abbrev clamp_negative : ℕ → ℕ
clamp_negative nb_secs = if ltb nb_secs (2 ^ 31) then nb_secs else 0

module _ (env : Env) where
  unfoldable pub from_pem : Bytes → Result Error X509Certificate
  from_pem pem_data = do
    Result.map_err from_openssl (env.x509.from_pem pem_data)
    ok (record { inner_cert = pem_data })

  -- in seconds
  unfoldable pub expires_in : World → X509Certificate → Result Error ℕ
  unfolding seconds_left
  expires_in w cert = do
    diff ← Result.map_err from_openssl (env.x509.diff w cert.inner_cert)
    ok (clamp_negative (seconds_left diff))

  -- An address has 4 or 16 octets.
  address_name : Bytes → String
  address_name i =
      if length i == 4
      then env.show_ip (v4 i)
      else if length i == 16
      then env.show_ip (v6 i)
      else ""

  general_name : GeneralName → String
  general_name v = elim v.dnsname [
    | some d ↦ d
    | none ↦ elim v.ipaddress [ some i ↦ address_name i | none ↦ "" ]
  ]

  abbrev names_in : Option (List GeneralName) → List String
  names_in none = []
  names_in (some s) = map general_name (keep (λ v. is_some v.dnsname || is_some v.ipaddress) s)

  unfoldable pub subject_alt_names : X509Certificate → List String
  unfolding general_name address_name
  subject_alt_names cert = names_in (env.x509.subject_alt_names cert.inner_cert)

  -- `Csr::new`
  unfoldable pub new_csr :
      World
      → KeyPair
      → HashFunction
      → List String
      → List String
      → List (SubjectAttribute × String)
      → Result Error Bytes
  unfolding get_digest
  new_csr w key_pair digest domains ips subject_attributes = Result.map_err from_openssl (
      env.x509.build_csr w (record {
        key_pair = key_pair;
        digest = get_digest digest key_pair;
        domains = domains;
        ips = ips;
        subject_attributes = subject_attributes;
      }))

  -- `Csr::to_der_base64`
  unfoldable pub to_der_base64 : Bytes → Result Error String
  to_der_base64 csr = do
    der ← Result.map_err from_openssl (env.x509.csr_to_der csr)
    ok (env.crypto.b64_encode der)

  -- `Csr::to_pem`
  unfoldable pub to_pem : Bytes → Result Error String
  to_pem csr = Result.map_err from_openssl (env.x509.csr_to_pem csr)
