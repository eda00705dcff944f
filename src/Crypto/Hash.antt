-- ===== src/Crypto/Hash.antt =====
-- acme_common/src/crypto.rs: the digests. `HashFunction` is `BaseHashFunction`.
use acmed.Base.{
  String, ◌<>◌, ◌||◌, List, [], ◌∷◌, ◌==◌, number_eq, string_eq, if◌then◌else◌, to_lowercase,
  replace,
}
use acmed.Base.Result.{Result, ok, err}
use acmed.Error.{Error, from_text}

pub data HashFunction : Type 0 where
  sha256 sha384 sha512 : HashFunction

unfoldable pub list_possible_values : List String
list_possible_values = "sha256" ∷ "sha384" ∷ "sha512" ∷ []

-- `FromStr`
unfoldable pub parse : (String → String) → String → Result Error HashFunction
parse unicode s =
    let name = replace (λ c. c == b'-' || c == b'_') "" (to_lowercase unicode s) in
    if name == "sha256"
    then ok sha256
    else if name == "sha384"
    then ok sha384
    else if name == "sha512"
    then ok sha512
    else err (from_text (name <> ": unknown hash function."))

-- `Display`
unfoldable pub to_string : HashFunction → String
to_string sha256 = "sha256"
to_string sha384 = "sha384"
to_string sha512 = "sha512"
