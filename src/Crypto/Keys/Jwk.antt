-- ===== src/Crypto/Keys/Jwk.antt =====
-- The JSON Web Keys of acme_common/src/crypto/openssl_keys.rs. The numbers of
-- an RSA key are unwrapped, which panics on any other key.
use acmed.Base.{
  ℕ, String, ◌<>◌, Bool, not, ◌&&◌, Option, none, some, List, [], ◌∷◌, ◌==◌, number_eq,
  if◌then◌else◌, is_empty, trim, trim_end, replace, lines, skip,
}
use text.Mathlib.Text.{starts_with}
use acmed.Base.Result
use acmed.Base.Result.{Result, ok, err, panic, ◌>>=◌}
use acmed.Base.Dict.{Dict}
use acmed.Error.{Error, from_text, from_openssl, from_utf8}
use acmed.Crypto.KeyType.{KeyType}
use acmed.World.Env.{Env, KeyPair, Curve, prime256v1, secp384r1, secp521r1}
use acmed.Crypto.Keys.{public_key_to_pem}

abbrev unwrap : {A : Type 0} → Result String A → Result Error A
unwrap (ok a) = ok a
unwrap (err e) = panic ("called `Result::unwrap()` on an `Err` value: " <> e)
unwrap (panic m) = panic m

-- What a curve is called in a key, with the algorithm and the size of a coordinate.
pub record EcdsaCurve : Type 0 where
  pub crv : String
  pub alg : String
  pub size : ℕ
  pub curve : Curve

unfoldable pub ecdsa_curve : KeyType → Result Error EcdsaCurve
ecdsa_curve KeyType.ecdsa_p256 =
    ok (record { crv = "P-256"; alg = "ES256"; size = 32; curve = prime256v1 })
ecdsa_curve KeyType.ecdsa_p384 =
    ok (record { crv = "P-384"; alg = "ES384"; size = 48; curve = secp384r1 })
ecdsa_curve KeyType.ecdsa_p521 =
    ok (record { crv = "P-521"; alg = "ES512"; size = 66; curve = secp521r1 })
ecdsa_curve _ = err (from_text "not an ECDSA elliptic curve")

unfoldable pub eddsa_curve : KeyType → Result Error String
eddsa_curve KeyType.ed25519 = ok "Ed25519"
eddsa_curve KeyType.ed448 = ok "Ed448"
eddsa_curve _ = err (from_text "not an EdDSA elliptic curve")

abbrev replaced : ℕ → String → String → String
replaced c with s = replace (λ x. x == c) with s

-- what a line of a PEM file adds to `x`
unfoldable pub pem_part : String → String
pem_part pem_line =
    if not (is_empty pem_line) && not (starts_with pem_line "-----")
    then replaced b'+' "-" (replaced b'/' "_" (trim_end (λ c. c == b'=') (trim pem_line)))
    else ""

unfoldable pub pem_x : List String → String
pem_x [] = ""
pem_x (pem_line ∷ more) = pem_part pem_line <> pem_x more

-- `replace_range(..16, "")`
abbrev after_prefix : Option String → Result Error String
after_prefix (some x) = ok x
after_prefix none = panic "range end index out of range"

module _ (env : Env) where
  unfoldable pub get_rsa_jwk : KeyPair → Bool → Result Error (Dict String)
  get_rsa_jwk k thumbprint = do
    numbers ← unwrap (env.crypto.rsa_numbers k.inner_key)
    let e = env.crypto.b64_encode (env.crypto.to_vec numbers.0)
    let n = env.crypto.b64_encode (env.crypto.to_vec numbers.1)
    ok (
        if thumbprint
        then ("kty", "RSA") ∷ ("e", e) ∷ ("n", n) ∷ []
        else ("alg", "RS256") ∷ ("kty", "RSA") ∷ ("use", "sig") ∷ ("e", e) ∷ ("n", n) ∷ [])

  unfoldable pub get_ecdsa_jwk : KeyPair → Bool → Result Error (Dict String)
  get_ecdsa_jwk k thumbprint = do
    c ← ecdsa_curve k.key_type
    point ← Result.map_err from_openssl (env.crypto.affine_coordinates k.inner_key c.curve)
    x ← Result.map_err from_openssl (env.crypto.to_vec_padded point.0 c.size)
    y ← Result.map_err from_openssl (env.crypto.to_vec_padded point.1 c.size)
    let x = env.crypto.b64_encode x
    let y = env.crypto.b64_encode y
    ok (
        if thumbprint
        then ("crv", c.crv) ∷ ("kty", "EC") ∷ ("x", x) ∷ ("y", y) ∷ []
        else ("alg", c.alg)
          ∷ ("crv", c.crv)
          ∷ ("kty", "EC")
          ∷ ("use", "sig")
          ∷ ("x", x)
          ∷ ("y", y)
          ∷ [])

  unfoldable pub get_eddsa_jwk : KeyPair → Bool → Result Error (Dict String)
  get_eddsa_jwk k thumbprint = do
    crv ← eddsa_curve k.key_type
    public_pem ← public_key_to_pem env k
    public_pem ← Result.map_err from_utf8 (env.from_utf8 public_pem)
    x ← after_prefix (skip 16 (pem_x (lines public_pem)))
    ok (
        if thumbprint
        then ("crv", crv) ∷ ("kty", "OKP") ∷ ("x", x) ∷ []
        else ("alg", "EdDSA") ∷ ("crv", crv) ∷ ("kty", "OKP") ∷ ("use", "sig") ∷ ("x", x) ∷ [])

  abbrev jwk_for : KeyType → KeyPair → Bool → Result Error (Dict String)
  jwk_for KeyType.rsa2048 = get_rsa_jwk
  jwk_for KeyType.rsa4096 = get_rsa_jwk
  jwk_for KeyType.ecdsa_p256 = get_ecdsa_jwk
  jwk_for KeyType.ecdsa_p384 = get_ecdsa_jwk
  jwk_for KeyType.ecdsa_p521 = get_ecdsa_jwk
  jwk_for KeyType.ed25519 = get_eddsa_jwk
  jwk_for KeyType.ed448 = get_eddsa_jwk

  unfoldable pub get_jwk_public_key : KeyPair → Bool → Result Error (Dict String)
  get_jwk_public_key k thumbprint = jwk_for k.key_type k thumbprint

  -- the text of the value, by which it is known
  unfoldable pub jwk_public_key : KeyPair → Result Error String
  jwk_public_key k = do jwk ← get_jwk_public_key k Bool.false; ok (env.json.write_object jwk)

  unfoldable pub jwk_public_key_thumbprint : KeyPair → Result Error String
  jwk_public_key_thumbprint k = do
    jwk ← get_jwk_public_key k Bool.true
    ok (env.json.write_object jwk)
