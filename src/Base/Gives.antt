-- ===== src/Base/Gives.antt =====
-- What holds of the value that a call returns, if it returns one.
use mathlib.Core.Path.{◌≡◌, refl, ap, subst}
use acmed.Base.Result.{Result, ok, err, panic, ◌>>=◌}

pub record Gives {E A : Type 0} (Q : A → Type 0) (r : Result E A) : Type 0 where
  pub at : (a : A) → r ≡ ok a → Q a

module _ {E A : Type 0} where
  value_or : A → Result E A → A
  value_or d (ok x) = x
  value_or d (err _) = d
  value_or d (panic _) = d

module _ {E A : Type 0} {Q : A → Type 0} where
  pub Gives-ok : (a : A) → Q a → Gives {E = E} Q (ok a)
  unfolding value_or
  Gives-ok a h = record { at = λ b e. subst Q (ap (value_or a) e) h }

  pub Gives-err : (e : E) → Gives Q (err e)
  Gives-err e = record { at = λ a p. absurd (cc p) }

module _ {E A B : Type 0} {Q : B → Type 0} where
  pub Gives-bind :
      (r : Result E A) (f : A → Result E B)
      → ((a : A) → r ≡ ok a → Gives Q (f a))
      → Gives Q (r >>= f)
  Gives-bind (ok a) f h = h a refl
  Gives-bind (err e) f h = record { at = λ b p. absurd (cc p) }
  Gives-bind (panic m) f h = record { at = λ b p. absurd (cc p) }
