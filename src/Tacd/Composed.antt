-- ===== src/Tacd/Composed.antt =====
-- The extension that acmed/src/acme_proto/structs/authorization.rs writes, as tacd reads it.
use acmed.Base.{
  ℕ, zero, suc, ◌<◌, ◌/◌, ◌%◌, String, ◌<>◌, ◌≡◌, refl, sym, Bool, true, false, not, ◌&&◌, [], ◌∷◌,
  map, All, List, all, all_chars, arith, code, split, join, length, ◌==◌, number_eq, subst,
}
use Prim.Native.String.append
use acmed.Base.Result.{ok}
use acmed.World.{Bytes}
use acmed.Identifier.{hex_digit}
use acmed.Proto.Proof.{hex2, acme_ext}
use acmed.Tacd.Extension.{two_parts, parse_ext}

abbrev free : String → Bool
free s = all_chars (λ c. not (c == b'=')) s

true-and : (a b : Bool) → (a && b) ≡ true → (a ≡ true) × (b ≡ true)
true-and true b e = (refl, e)
true-and false b e = absurd (cc)

not-true : (b : Bool) → not b ≡ true → b ≡ false
not-true true e = absurd (cc)
not-true false e = refl

free-append : (s t : String) → free s ≡ true → free t ≡ true → free (s <> t) ≡ true
free-append String.[] t h k = subst (λ x. free x ≡ true) (sym (append.nil t)) k
free-append (String.◌∷◌ c s) t h k =
    let parts = true-and (not (code c == b'=')) (free s) h in
    subst (λ x. free x ≡ true) (sym (append.cons c s t)) (rw parts.0 (free-append s t parts.1 k))

split-free : (s : String) → free s ≡ true → split b'=' s ≡ s ∷ []
unfolding split
split-free String.[] h = refl
split-free (String.◌∷◌ c s) h =
    let parts = true-and (not (code c == b'=')) (free s) h in
    rw (not-true (code c == b'=') parts.0) (rw (split-free s parts.1) refl)

split-append : (s t : String) → free s ≡ true → split b'=' (s <> ("=" <> t)) ≡ s ∷ split b'=' t
unfolding split
split-append String.[] t h =
    rw (append.nil ("=" <> t)) (rw (append.cons "=" "" t) (rw (append.nil t) refl))
split-append (String.◌∷◌ c s) t h =
    let parts = true-and (not (code c == b'=')) (free s) h in
    rw (append.cons c s ("=" <> t))
      (rw (not-true (code c == b'=') parts.0) (rw (split-append s t parts.1) refl))

nibbles : ℕ → List ℕ
nibbles zero = []
nibbles (suc k) = k ∷ nibbles k

pick : (p : ℕ → Bool) (x k : ℕ) → x < k → all p (nibbles k) ≡ true → p x ≡ true
unfolding nibbles
pick p x zero lt h = absurd (omega arith)
pick p x (suc k) lt h = ground (arith, pick p x k)

hex_digit-free : (n : ℕ) → n < 16 → free (hex_digit n) ≡ true
unfolding nibbles hex_digit
hex_digit-free n h = pick (λ n. free (hex_digit n)) n 16 h refl

hex2-free : (n : ℕ) → n < 256 → free (hex2 n) ≡ true
hex2-free n h =
    free-append (hex_digit (n / 16)) (hex_digit (n % 16)) (hex_digit-free (n / 16) (omega arith))
      (hex_digit-free (n % 16) (omega arith))

join-free : (bytes : Bytes) → All (λ b. b < 256) bytes → free (join ":" (map hex2 bytes)) ≡ true
unfolding join
join-free [] h = refl
join-free (a ∷ []) h = hex2-free a h.0
join-free (a ∷ b ∷ bytes) h =
    free-append (hex2 a) (":" <> join ":" (map hex2 (b ∷ bytes))) (hex2-free a h.0)
      (free-append ":" (join ":" (map hex2 (b ∷ bytes))) refl (join-free (b ∷ bytes) h.1))

-- For a proof of fewer than 256 octets, tacd takes the text that ACMEd writes for the challenge
-- apart without an error: into the identifier of the extension, and its value as an octet string
-- in DER, which names the length and the octets of the proof.
pub parse_ext-acme_ext :
    (proof : Bytes)
    → All (λ b. b < 256) proof
    → length proof < 256
    → parse_ext (acme_ext proof)
      ≡ ok (
        "1.3.6.1.5.5.7.1.31",
        "critical,DER:"
            <> ("04" <> (":" <> (hex2 (length proof) <> (":" <> join ":" (map hex2 proof))))),
      )
unfolding parse_ext two_parts acme_ext hex_digit
parse_ext-acme_ext proof octets short =
    let octet_string = hex2 (length proof) <> (":" <> join ":" (map hex2 proof)) in
    let octet_string-free : free octet_string ≡ true =
      free-append (hex2 (length proof)) (":" <> join ":" (map hex2 proof))
        (hex2-free (length proof) short)
        (free-append ":" (join ":" (map hex2 proof)) refl (join-free proof octets)) in
    let value = "critical,DER:" <> ("04" <> (":" <> octet_string)) in
    let value-free : free value ≡ true =
      free-append "critical,DER:" ("04" <> (":" <> octet_string)) refl (
        free-append "04" (":" <> octet_string) refl
          (free-append ":" octet_string refl octet_string-free)) in
    rw (split-append "1.3.6.1.5.5.7.1.31" value refl) (rw (split-free value value-free) refl)
