-- ===== src/Base/Ends.antt =====
-- Calls that end without a panic.
use Prim.Native.String.{String}
use mathlib.Core.Path.{◌≡◌, refl}
use acmed.Base.Result.{Result, ok, err, panic, ◌>>=◌, map_err}

abbrev pub Ends : {E A : Type 0} → Result E A → Type 0
Ends r = (m : String) → ¬ (r ≡ panic m)

module _ {E A B : Type 0} where
  pub Ends-bind :
      (r : Result E A) (f : A → Result E B) → Ends r → ((a : A) → Ends (f a)) → Ends (r >>= f)
  Ends-bind (ok a) f e h m p = h a m p
  Ends-bind (err x) f e h m p = absurd (cc)
  Ends-bind (panic x) f e h m p = e x refl

module _ {E A : Type 0} where
  pub Ends-ok : (a : A) → Ends {E = E} (ok a)
  Ends-ok a m p = absurd (cc)

  pub Ends-err : (e : E) → Ends {A = A} (err e)
  Ends-err e m p = absurd (cc)

module _ {E F A : Type 0} where
  pub Ends-map_err : (f : E → F) (r : Result E A) → Ends r → Ends (map_err f r)
  Ends-map_err f (ok a) h m p = absurd (cc)
  Ends-map_err f (err e) h m p = absurd (cc)
  Ends-map_err f (panic x) h m p = h x refl
