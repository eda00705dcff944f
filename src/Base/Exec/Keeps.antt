-- ===== src/Base/Exec/Keeps.antt =====
-- `Keeps P m`: the action `m` keeps `P`, whether it returns or fails. One rule for each way to build an
-- action.
use mathlib.Core.Path.{◌≡◌, refl}
use mathlib.Core.Bool.{Bool, true, false}
use acmed.Base.Tests.{if◌then◌else◌}
use acmed.Base.Result.{Result, ok, err, panic}
use acmed.Base.Exec.{Exec, pure, fail, lift, gets, continue, ◌>>=◌, map_err, rename}

pub record Keeps {ℓ} {S E A : Type ℓ} (P : S → Type ℓ) (m : Exec S E A) : Type ℓ where
  pub at : (s : S) → P s → P (m s).1

module _ {ℓ} {S E A : Type ℓ} {P : S → Type ℓ} where
  pub Keeps-pure : (a : A) → Keeps P (pure {E = E} a)
  unfolding pure
  Keeps-pure a = record { at = λ s h. h }

  pub Keeps-fail : (e : E) → Keeps P (fail {A = A} e)
  unfolding fail
  Keeps-fail e = record { at = λ s h. h }

  pub Keeps-lift : (r : Result E A) → Keeps P (lift r)
  unfolding lift
  Keeps-lift r = record { at = λ s h. h }

  pub Keeps-gets : (f : S → A) → Keeps P (gets {E = E} f)
  unfolding gets
  Keeps-gets f = record { at = λ s h. h }

  pub Keeps-if :
      (b : Bool) (m n : Exec S E A) → Keeps P m → Keeps P n → Keeps P (if b then m else n)
  Keeps-if true m n km kn = km
  Keeps-if false m n km kn = kn

module _ {ℓ} {S E A B : Type ℓ} {P : S → Type ℓ} where
  Keeps-continue :
      (r : Result E A) (f : A → Exec S E B)
      → ((a : A) → r ≡ ok a → Keeps P (f a))
      → (s : S) → P s
      → P (continue r f s).1
  Keeps-continue (ok a) f kf s h = (kf a refl).at s h
  Keeps-continue (err e) f kf s h = h
  Keeps-continue (panic x) f kf s h = h

  pub Keeps-bind :
      (m : Exec S E A) (f : A → Exec S E B)
      → Keeps P m
      → ((a : A) → Keeps P (f a))
      → Keeps P (m >>= f)
  unfolding ◌>>=◌
  Keeps-bind m f km kf = record {
    at = λ s h. Keeps-continue (m s).0 f (λ a _. kf a) (m s).1 (km.at s h);
  }

  -- What holds after the first action holds after the block, if the rest keeps it.
  pub Keeps-after :
      (m : Exec S E A) (f : A → Exec S E B) (s : S)
      → P (m s).1
      → ((a : A) → Keeps P (f a))
      → P ((m >>= f) s).1
  unfolding ◌>>=◌
  Keeps-after m f s h kf = Keeps-continue (m s).0 f (λ a _. kf a) (m s).1 h

  -- The rest of the block may use what a computed result says of its value.
  pub Keeps-bind_lift :
      (r : Result E A) (f : A → Exec S E B)
      → ((a : A) → r ≡ ok a → Keeps P (f a))
      → Keeps P (lift r >>= f)
  unfolding ◌>>=◌
  Keeps-bind_lift r f kf = record { at = Keeps-continue r f kf }

module _ {ℓ} {S E F A : Type ℓ} where
  pub Keeps-rename : (f : E → F) (r : Result E A) (s : S) → (rename f (r, s)).1 ≡ s
  Keeps-rename f (ok a) s = refl
  Keeps-rename f (err e) s = refl
  Keeps-rename f (panic x) s = refl

module _ {ℓ} {S E F A : Type ℓ} {P : S → Type ℓ} where
  pub Keeps-map_err : (f : E → F) (m : Exec S E A) → Keeps P m → Keeps P (map_err f m)
  unfolding map_err
  Keeps-map_err f m km = record { at = λ s h. rw (Keeps-rename f (m s).0 (m s).1) (km.at s h) }

pub ruleset keeps_rules =
    (Keeps-pure, Keeps-fail, Keeps-lift, Keeps-gets, Keeps-if, Keeps-bind, Keeps-map_err)
