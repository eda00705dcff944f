-- ===== src/Base/Exec.antt =====
-- Code that changes a state and may fail. What was written before a failure stays written, so the
-- state comes back beside the error too.
pub mod Keeps
pub mod Costs
pub mod Ensures
pub mod Total
use mathlib.Core.Path.{◌≡◌, refl}
use acmed.Base.Result.{Result, ok, err, panic}

abbrev pub Exec {ℓ} : Type ℓ → Type ℓ → Type ℓ → Type ℓ
Exec S E A = S → Result E A × S

module _ {ℓ} {S E A : Type ℓ} where
  unfoldable pub pure : A → Exec S E A
  pure a s = (ok a, s)

  unfoldable pub fail : E → Exec S E A
  fail e s = (err e, s)

  unfoldable pub lift : Result E A → Exec S E A
  lift r s = (r, s)

  unfoldable pub gets : (S → A) → Exec S E A
  gets f s = (ok (f s), s)

unfoldable pub modify {ℓ} : {S E : Type ℓ} → (S → S) → Exec S E (Unit {ℓ})
modify f s = (ok tt, f s)

module _ {ℓ} {S E F A : Type ℓ} where
  abbrev pub rename : (E → F) → Result E A × S → Result F A × S
  rename f (ok a, s) = (ok a, s)
  rename f (err e, s) = (err (f e), s)
  rename f (panic m, s) = (panic m, s)

  -- `.map_err(f)` on the result of an action
  unfoldable pub map_err : (E → F) → Exec S E A → Exec S F A
  map_err f m s = rename f (m s)

module _ {ℓ} {S E A B : Type ℓ} where
  abbrev pub continue : Result E A → (A → Exec S E B) → Exec S E B
  continue (ok a) f s = f a s
  continue (err e) f s = (err e, s)
  continue (panic m) f s = (panic m, s)

  infixl 10 ◌>>=◌ ◌>>◌
  -- Opening this opens the other actions too.
  unfoldable pub ◌>>=◌ : Exec S E A → (A → Exec S E B) → Exec S E B
  unfolding pure fail lift gets modify map_err
  ◌>>=◌ m f s = let (r, s') = m s in continue r f s'

  abbrev pub ◌>>◌ : Exec S E A → Exec S E B → Exec S E B
  m >> n = m >>= λ _. n
