-- ===== src/Duration.antt =====
-- acmed/src/duration.rs: periods of time such as `1d12h`, read with nom. A duration is its number of
-- seconds here, which all of these are. The program is built without overflow checks, so that the
-- product of a number and its unit wraps around; the sum of durations panics.
pub mod Parts
pub mod Fold
use acmed.Base.{
  ℕ, zero, suc, ◌+◌, ◌-◌, ◌*◌, ◌%◌, ◌^◌, String, ◌<>◌, Bool, true, false, ◌||◌, Option, none, some,
  List, [], ◌∷◌, code, ltb, ◌==◌, number_eq, if◌then◌else◌, is_ascii_digit, length,
}
use acmed.Base.Result.{Result, ok, err, panic, ◌>>=◌}
use acmed.Error.{Error, from_text}

-- `str.chars()`, as code points
abbrev pub codes : String → List ℕ
codes String.[] = []
codes (String.◌∷◌ c s) = code c ∷ codes s

unfoldable pub is_duration_chr : ℕ → Bool
is_duration_chr c = c == b's' || (c == b'm' || (c == b'h' || (c == b'd' || c == b'w')))

unfoldable pub multiplicator : ℕ → ℕ
multiplicator c =
    if c == b's'
    then 1
    else if c == b'm'
    then 60
    else if c == b'h'
    then 3600
    else if c == b'd'
    then 86400
    else if c == b'w'
    then 604800
    else 0

-- `take_while_m_n(1, 1, is_duration_chr)` and the number of seconds of the unit
unfoldable pub get_multiplicator : List ℕ → Option (ℕ × List ℕ)
get_multiplicator [] = none
get_multiplicator (c ∷ input) = if is_duration_chr c then some (multiplicator c, input) else none

-- the digits that a text begins with, and the rest
unfoldable pub span_digits : List ℕ → List ℕ × List ℕ
span_digits [] = ([], [])
span_digits (c ∷ input) =
    let rest = span_digits input in
    if is_ascii_digit c then (c ∷ rest.0, rest.1) else ([], c ∷ input)

abbrev pub digits_value : ℕ → List ℕ → ℕ
digits_value acc [] = acc
digits_value acc (c ∷ ds) = digits_value (acc * 10 + (c - b'0')) ds

-- `digit1` with `str::parse::<u64>`
unfoldable pub parse_u64 : List ℕ → Option ℕ
parse_u64 [] = none
parse_u64 (c ∷ ds) = let nb = digits_value 0 (c ∷ ds) in if ltb nb (2 ^ 64) then some nb else none

abbrev times : ℕ → Option (ℕ × List ℕ) → Option (ℕ × List ℕ)
times nb none = none
times nb (some (mult, input)) = some (nb * mult % 2 ^ 64, input)

abbrev pub part_after : Option ℕ → List ℕ → Option (ℕ × List ℕ)
part_after none input = none
part_after (some nb) input = times nb (get_multiplicator input)

unfoldable pub get_duration_part : List ℕ → Option (ℕ × List ℕ)
get_duration_part input = part_after (parse_u64 (span_digits input).0) (span_digits input).1

-- `acc += item`
unfoldable pub add_duration : ℕ → ℕ → Result Error ℕ
add_duration acc item =
    if ltb (acc + item) (2 ^ 64) then ok (acc + item) else panic "overflow when adding durations"

-- The loop of `fold_many1`: a part that cannot be read ends it.
unfoldable pub fold_parts : ℕ → ℕ → List ℕ → Result Error (ℕ × List ℕ)
fold_parts zero acc input = ok (acc, input)
fold_parts (suc fuel) acc input = elim (get_duration_part input) [
  | none ↦ ok (acc, input)
  | some (item, rest) ↦ add_duration acc item >>= λ sum. fold_parts fuel sum rest
]

abbrev pub invalid : String → Error
invalid input = from_text (input <> ": invalid duration")

abbrev pub finished : String → ℕ × List ℕ → Result Error ℕ
finished input (d, []) = ok d
finished input (d, c ∷ rest) = err (invalid input)

abbrev pub from_first : String → Option (ℕ × List ℕ) → Result Error ℕ
from_first input none = err (invalid input)
from_first input (some (item, rest)) =
    (add_duration 0 item >>= λ sum. fold_parts (length rest) sum rest) >>= finished input

-- Each round reads a character at least, so that the length is fuel enough.
unfoldable pub parse_duration : String → Result Error ℕ
parse_duration input = from_first input (get_duration_part (codes input))
