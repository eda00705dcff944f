-- ===== src/Duration/Parts.antt =====
-- Which texts are periods of time for acmed/src/duration.rs, and for how long they stand.
use acmed.Base.{
  ℕ, ◌+◌, ◌*◌, ◌%◌, ◌^◌, ◌<◌, ◌≡◌, refl, ap, true, false, some, List, [], ◌∷◌, ◌++◌, arith,
  number_eq, is_ascii_digit, All, Bool-cases, inl, inr,
}
use acmed.Duration.{
  is_duration_chr, multiplicator, get_multiplicator, span_digits, digits_value, parse_u64,
  get_duration_part, part_after,
}

-- A number and a unit, as they are written: digits, one at least, of a number below 2 ^ 64.
pub record Part : Type 0 where
  pub first : ℕ
  pub more : List ℕ
  pub unit : ℕ

abbrev pub digits : Part → List ℕ
digits p = p.first ∷ p.more

pub record IsPart (p : Part) : Type 0 where
  pub all_digits : All (λ c. is_ascii_digit c ≡ true) (digits p)
  pub in_range : digits_value 0 (digits p) < 2 ^ 64
  pub is_unit : is_duration_chr p.unit ≡ true

-- `print parts` is the text of the parts, `seconds p` the time of one.
abbrev pub print : List Part → List ℕ
print [] = []
print (p ∷ ps) = digits p ++ (p.unit ∷ print ps)

abbrev pub seconds : Part → ℕ
seconds p = digits_value 0 (digits p) * multiplicator p.unit % 2 ^ 64

abbrev pub total : List Part → ℕ
total [] = 0
total (p ∷ ps) = seconds p + total ps

unit-not_digit : (u : ℕ) → is_duration_chr u ≡ true → is_ascii_digit u ≡ false
unfolding is_duration_chr
unit-not_digit u h = ground arith

span_digits-append :
    (ds : List ℕ) (u : ℕ) (rest : List ℕ)
    → All (λ c. is_ascii_digit c ≡ true) ds
    → is_ascii_digit u ≡ false
    → span_digits (ds ++ (u ∷ rest)) ≡ (ds, u ∷ rest)
unfolding span_digits
span_digits-append [] u rest _ h = rw h
span_digits-append (c ∷ ds) u rest (d, all_) h = rw d (rw (span_digits-append ds u rest all_ h))

pub get_duration_part-print :
    (p : Part) (rest : List ℕ)
    → IsPart p
    → get_duration_part (digits p ++ (p.unit ∷ rest)) ≡ some (seconds p, rest)
unfolding get_duration_part parse_u64 get_multiplicator
get_duration_part-print p rest h =
    rw (span_digits-append (digits p) p.unit rest h.all_digits (unit-not_digit p.unit h.is_unit))
      (ground (arith, h.in_range, h.is_unit))

span_digits_parts :
    (xs : List ℕ)
    → (xs ≡ (span_digits xs).0 ++ (span_digits xs).1)
      × All (λ c. is_ascii_digit c ≡ true) (span_digits xs).0
unfolding span_digits
span_digits_parts [] = (refl, tt)
span_digits_parts (c ∷ xs) = elim (Bool-cases (is_ascii_digit c)) [
  | inl d ↦ rw d (ap (λ ys. c ∷ ys) (span_digits_parts xs).0, (d, (span_digits_parts xs).1))
  | inr n ↦ rw n (refl, tt)
]

-- What was read as a part was one.
pub record Reads (xs : List ℕ) (item : ℕ) (rest : List ℕ) : Type 0 where
  pub part : Part
  pub valid : IsPart part
  pub text : xs ≡ digits part ++ (part.unit ∷ rest)
  pub time : item ≡ seconds part

part_after-Reads :
    (ds input : List ℕ) (item : ℕ) (rest : List ℕ)
    → All (λ c. is_ascii_digit c ≡ true) ds
    → part_after (parse_u64 ds) input ≡ some (item, rest)
    → Reads (ds ++ input) item rest
unfolding parse_u64 get_multiplicator
part_after-Reads [] input item rest all_ h = cc
part_after-Reads (c ∷ ds) [] item rest all_ h = absurd (ground arith)
part_after-Reads (c ∷ ds) (u ∷ input) item rest all_ h = record {
  part = record { first = c; more = ds; unit = u };
  valid = record { all_digits = all_; in_range = ground arith; is_unit = ground arith };
  text = ground arith;
  time = ground arith;
}

pub get_duration_part-Reads :
    (xs : List ℕ) (item : ℕ) (rest : List ℕ)
    → get_duration_part xs ≡ some (item, rest)
    → Reads xs item rest
unfolding get_duration_part
get_duration_part-Reads xs item rest h =
    rw (span_digits_parts xs).0
      (part_after-Reads (span_digits xs).0 (span_digits xs).1 item rest (span_digits_parts xs).1 h)
