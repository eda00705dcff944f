-- ===== src/Identifier.antt =====
-- acmed/src/identifier.rs and `to_idna` of acme_common/src/lib.rs.
pub mod Arpa
use acmed.Base.{
  ℕ, zero, suc, ◌/◌, ◌%◌, String, ◌<>◌, Bool, not, ◌≡◌, List, [], ◌∷◌, map, ◌==◌, if◌then◌else◌,
  all_chars, is_ascii, contains, join, split, show, single, to_lowercase,
}
use Prim.Native.String.{char_at}
use mathlib.Core.List.{reverse}
use acmed.Base.Result
use acmed.Base.Result.{Result, ok, err, collect, ◌>>=◌, ◌>>◌}
use acmed.Base.Dict.{Dict}
use acmed.Error.{Error, from_text, from_addr}
use acmed.Structs.Identifier.{
  IdentifierType, dns, ip, type_to_string, Challenge, http01, dns01, tls_alpn01, challenge_eq,
  parse, to_string, Identifier,
}
use acmed.World.Env.{Env, IpAddr, v4, v6}

-- `{:x}` of a number below 16
unfoldable pub hex_digit : ℕ → String
hex_digit n = single (char_at "0123456789abcdef" n)

-- The two nibbles of an octet as hexadecimal digits, the low one first.
unfoldable pub u8_to_nibbles_string : ℕ → String
u8_to_nibbles_string value =
    let first = value % 16 in
    let second = value / 16 % 16 in hex_digit first <> ("." <> hex_digit second)

unfoldable pub supported_challenges : IdentifierType → List Challenge
supported_challenges dns = http01 ∷ dns01 ∷ tls_alpn01 ∷ []
supported_challenges ip = http01 ∷ tls_alpn01 ∷ []

module _ (env : Env) where
  -- one label of `to_idna`
  unfoldable pub idna_label : String → Result Error String
  idna_label name =
      let raw_name = to_lowercase env.unicode name in
      if all_chars is_ascii name then ok raw_name else (do
        idna_name ← Result.map_err (λ _. from_text "IDNA encoding failed.") (env.punycode raw_name)
        ok ("xn--" <> idna_name))

  unfoldable pub to_idna : String → Result Error String
  to_idna domain_name = do
    idna_parts ← collect idna_label (split b'.' domain_name)
    ok (join "." idna_parts)

  clean_value : IdentifierType → String → Result Error String
  clean_value dns value = to_idna value
  clean_value ip value = do
    address ← Result.map_err from_addr (env.parse_ip value)
    ok (env.show_ip address)

  -- `Identifier::new`
  unfoldable pub new : IdentifierType → String → String → Dict String → Result Error Identifier
  unfolding clean_value
  new id_type value challenge id_env = do
    cleaned ← clean_value id_type value
    parsed ← parse env.unicode challenge
    if not (contains (supported_challenges id_type) parsed)
        then err (
            from_text (
              "challenge "
              <> (to_string parsed
                  <> (" cannot be used with identifier of type " <> type_to_string id_type))))
        else ok (record { id_type = id_type; value = cleaned; challenge = parsed; env = id_env })

unfoldable pub arpa_name : IpAddr → String
arpa_name (v4 octets) = join "." (map show (reverse octets)) <> ".in-addr.arpa"
arpa_name (v6 octets) = join "." (map u8_to_nibbles_string (reverse octets)) <> ".ip6.arpa"

module _ (env : Env) where
  tls_alpn_name_of : IdentifierType → String → Result Error String
  tls_alpn_name_of dns value = ok value
  tls_alpn_name_of ip value = do
    address ← Result.map_err from_addr (env.parse_ip value)
    ok (arpa_name address)

  unfoldable pub get_tls_alpn_name : Identifier → Result Error String
  unfolding tls_alpn_name_of
  get_tls_alpn_name id = tls_alpn_name_of id.id_type id.value
