-- ===== src/Base/Text.antt =====
-- Texts walked character by character, and the joins of the standard library.
use Prim.Native.Nat.{ℕ, zero, suc, ◌-◌, ◌/◌, ◌%◌}
use Prim.Native.Char.{Char, code}
use Prim.Native.String.{String, ◌++◌ as ◌<>◌, char_at}
use mathlib.Core.Bool.{Bool, true, ◌&&◌, ◌||◌}
use mathlib.Core.List.{List, [], ◌∷◌}
use acmed.Base.Tests.{leb, ◌==◌, number_eq, string_eq, if◌then◌else◌}

-- A text of one character.
abbrev pub single : Char → String
single c = String.◌∷◌ c String.[]

-- `str.chars().all(..)`, on code points
abbrev pub all_chars : (ℕ → Bool) → String → Bool
all_chars p String.[] = true
all_chars p (String.◌∷◌ c s) = p (code c) && all_chars p s

-- `slice.join(sep)`
unfoldable pub join : String → List String → String
join sep [] = ""
join sep (x ∷ []) = x
join sep (x ∷ y ∷ ys) = x <> (sep <> join sep (y ∷ ys))

abbrev pub is_empty : String → Bool
is_empty s = s == ""

abbrev pub is_ascii_digit : ℕ → Bool
is_ascii_digit c = leb b'0' c && leb c b'9'

abbrev pub is_ascii_alphanumeric : ℕ → Bool
is_ascii_alphanumeric c =
    is_ascii_digit c || ((leb b'A' c && leb c b'Z') || (leb b'a' c && leb c b'z'))

abbrev pub is_ascii : ℕ → Bool
is_ascii c = leb c 127

digit : ℕ → String
digit zero = "0"
digit (suc zero) = "1"
digit (suc (suc zero)) = "2"
digit (suc (suc (suc zero))) = "3"
digit (suc (suc (suc (suc zero)))) = "4"
digit (suc (suc (suc (suc (suc zero))))) = "5"
digit (suc (suc (suc (suc (suc (suc zero)))))) = "6"
digit (suc (suc (suc (suc (suc (suc (suc zero))))))) = "7"
digit (suc (suc (suc (suc (suc (suc (suc (suc zero)))))))) = "8"
digit _ = "9"

digits : ℕ → ℕ → String → String
digits zero n out = out
digits (suc fuel) n out =
    let more = digits fuel (n / 10) (digit (n % 10) <> out) in if n == 0 then out else more

-- `{n}` in a format string. A number has no more digits than its own value.
unfoldable pub show : ℕ → String
unfolding digits digit
show n = if n == 0 then "0" else digits n n ""

ascii_lower : Char → Char
ascii_lower c =
    if leb b'A' (code c) && leb (code c) b'Z'
    then char_at "abcdefghijklmnopqrstuvwxyz" (code c - b'A')
    else c

ascii_lowercase : String → String
ascii_lowercase String.[] = ""
ascii_lowercase (String.◌∷◌ c s) = String.◌∷◌ (ascii_lower c) (ascii_lowercase s)

-- `str::to_lowercase`. `unicode` stands for the tables of the standard library, which say what
-- becomes of a text with a character outside ASCII.
unfoldable pub to_lowercase : (String → String) → String → String
unfolding ascii_lower ascii_lowercase
to_lowercase unicode s = if all_chars is_ascii s then ascii_lowercase s else unicode s

-- `str.replace(test, with)` for a test on characters
unfoldable pub replace : (ℕ → Bool) → String → String → String
replace test with String.[] = ""
replace test with (String.◌∷◌ c s) =
    (if test (code c) then with else single c) <> replace test with s

-- `str.split(sep)` for a character: there is always one part at least.
abbrev extend_first : Char → List String → List String
extend_first c [] = single c ∷ []
extend_first c (x ∷ xs) = String.◌∷◌ c x ∷ xs

unfoldable pub split : ℕ → String → List String
split sep String.[] = "" ∷ []
split sep (String.◌∷◌ c s) =
    let rest = split sep s in if code c == sep then "" ∷ rest else extend_first c rest

-- `str.trim_start_matches("*.")`, which takes the prefix off as often as it is there
unfoldable pub trim_wildcards : String → String
trim_wildcards String.[] = ""
trim_wildcards (String.◌∷◌ c String.[]) = single c
trim_wildcards (String.◌∷◌ c (String.◌∷◌ d s)) =
    let rest = trim_wildcards s in
    if code c == b'*' && code d == b'.' then rest else String.◌∷◌ c (String.◌∷◌ d s)
