-- ===== src/Duration/Fold.antt =====
-- The loop of acmed/src/duration.rs reads all the parts of a text, and only those.
use acmed.Base.{ℕ, ◌+◌, ◌^◌, ◌<◌, ◌≡◌, List, ◌∷◌, number_eq, All}
use acmed.Duration.Parts.{Part, IsPart, print, total}

-- The parts of a text that `fold_parts` has read to its end.
record Folded (acc d : ℕ) (xs : List ℕ) : Type 0 where
  parts : List Part
  valid : All IsPart parts
  text : xs ≡ print parts
  time : d ≡ acc + total parts
  in_range : d < 2 ^ 64

-- `Spells xs d`: the text is a sequence of parts, one at least, that stand for d seconds.
pub record Spells (xs : List ℕ) (d : ℕ) : Type 0 where
  pub first : Part
  pub more : List Part
  pub valid : All IsPart (first ∷ more)
  pub text : xs ≡ print (first ∷ more)
  pub time : d ≡ total (first ∷ more)
  pub in_range : d < 2 ^ 64
