-- ===== src/Identifier/Arpa.antt =====
-- The reverse names of RFC 3596, and what an identifier accepts.
use acmed.Base.{
  ℕ, ◌/◌, ◌%◌, String, ◌<>◌, ◌≡◌, refl, true, List, [], ◌∷◌, ◌++◌, map, arith, join, contains,
  append_assoc,
}
use text.Mathlib.TextLemmas
use mathlib.Core.List.{reverse, reverse-cons}
use acmed.Base.Result.{ok}
use acmed.Base.Dict.{Dict}
use acmed.Structs.Identifier.{IdentifierType, Identifier, challenge_eq}
use acmed.World.Env.{Env, v6}
use acmed.Identifier.{hex_digit, u8_to_nibbles_string, arpa_name, new, supported_challenges}

-- the nibbles of an address, the most significant first
abbrev pub nibbles : List ℕ → List ℕ
nibbles [] = []
nibbles (b ∷ bs) = (b / 16 % 16) ∷ (b % 16) ∷ nibbles bs

-- the same of octets in reverse
abbrev reversed_nibbles : List ℕ → List ℕ
reversed_nibbles [] = []
reversed_nibbles (b ∷ bs) = (b % 16) ∷ (b / 16 % 16) ∷ reversed_nibbles bs

reversed_nibbles-append :
    (xs ys : List ℕ) → reversed_nibbles (xs ++ ys) ≡ reversed_nibbles xs ++ reversed_nibbles ys
reversed_nibbles-append [] ys = refl
reversed_nibbles-append (x ∷ xs) ys = rw (reversed_nibbles-append xs ys)

reverse-nibbles : (os : List ℕ) → reverse (nibbles os) ≡ reversed_nibbles (reverse os)
reverse-nibbles [] = refl
reverse-nibbles (b ∷ bs) =
    simp (reverse-cons, reversed_nibbles-append, append_assoc, reverse-nibbles bs)

join-nibbles :
    (os : List ℕ)
    → join "." (map u8_to_nibbles_string os) ≡ join "." (map hex_digit (reversed_nibbles os))
unfolding join u8_to_nibbles_string
join-nibbles [] = refl
join-nibbles (b ∷ []) = refl
join-nibbles (b ∷ c ∷ os) = rw (join-nibbles (c ∷ os)) (simp TextLemmas.append_assoc)

-- The TLS-ALPN name of an IPv6 address is its nibbles in hexadecimal, the last one first, joined by
-- dots, under `ip6.arpa`: the form of RFC 3596, section 2.5.
pub arpa_name-v6 :
    (octets : List ℕ)
    → arpa_name (v6 octets) ≡ join "." (map hex_digit (reverse (nibbles octets))) <> ".ip6.arpa"
unfolding arpa_name
arpa_name-v6 octets = rw (reverse-nibbles octets, join-nibbles (reverse octets))

-- An identifier is made only with a challenge that its type supports.
new_supported :
    (env : Env) (t : IdentifierType) (value challenge : String) (vars : Dict String)
    (id : Identifier)
    → new env t value challenge vars ≡ ok id
    → (id.id_type ≡ t) × (contains (supported_challenges t) id.challenge ≡ true) × (id.env ≡ vars)
unfolding new
new_supported env t value challenge vars id h = ground arith
