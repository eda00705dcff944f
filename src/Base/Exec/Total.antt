-- ===== src/Base/Exec/Total.antt =====
-- `Total P m`: from a state with `P`, the action `m` ends without a panic, and in a state with `P`.
-- One rule for each way to build an action.
use mathlib.Core.Path.{◌≡◌, refl}
use acmed.Base.Result
use acmed.Base.Result.{Result, ok, err, panic}
use acmed.Base.Ends.{Ends, Ends-ok, Ends-err}
use acmed.Base.Exec.{Exec, pure, lift, gets, continue, ◌>>=◌, map_err, rename}

pub record Total {S E A : Type 0} (P : S → Type 0) (m : Exec S E A) : Type 0 where
  pub at : (s : S) → P s → Ends (m s).0 × P (m s).1

module _ {S E A : Type 0} {P : S → Type 0} where
  pub Total-pure : (a : A) → Total P (pure {E = E} a)
  unfolding pure
  Total-pure a = record { at = λ s p. (Ends-ok a, p) }

  pub Total-lift : (r : Result E A) → Ends r → Total P (lift r)
  unfolding lift
  Total-lift r h = record { at = λ s p. (h, p) }

  pub Total-gets : (f : S → A) → Total P (gets {E = E} f)
  unfolding gets
  Total-gets f = record { at = λ s p. (Ends-ok (f s), p) }

module _ {S E A B : Type 0} {P : S → Type 0} where
  pub Total-continue :
      (r : Result E A) (f : A → Exec S E B) (s : S)
      → Ends r
      → P s
      → ((a : A) → r ≡ ok a → Total P (f a))
      → Ends (continue r f s).0 × P (continue r f s).1
  Total-continue (ok a) f s e p h = (h a refl).at s p
  Total-continue (err x) f s e p h = (Ends-err x, p)
  Total-continue (panic x) f s e p h = absurd (e x refl)

  pub Total-bind :
      (m : Exec S E A) (f : A → Exec S E B)
      → Total P m
      → ((a : A) → Total P (f a))
      → Total P (m >>= f)
  unfolding ◌>>=◌
  Total-bind m f hm hf = record {
    at = λ s p. let h = hm.at s p in Total-continue (m s).0 f (m s).1 h.0 h.1 (λ a _. hf a);
  }

module _ {S E F A : Type 0} where
  rename-Ends : (f : E → F) (r : Result E A) (s : S) → Ends r → Ends (rename f (r, s)).0
  rename-Ends f (ok a) s h = Ends-ok a
  rename-Ends f (err e) s h = Ends-err (f e)
  rename-Ends f (panic x) s h = absurd (h x refl)

  rename-state : (P : S → Type 0) (f : E → F) (r : Result E A) (s : S) → P s → P (rename f (r, s)).1
  rename-state P f (ok a) s h = h
  rename-state P f (err e) s h = h
  rename-state P f (panic x) s h = h

module _ {S E F A : Type 0} {P : S → Type 0} where
  pub Total-map_err : (f : E → F) (m : Exec S E A) → Total P m → Total P (map_err f m)
  unfolding map_err
  Total-map_err f m hm = record {
    at = λ s p.
        let h = hm.at s p in
        (rename-Ends f (m s).0 (m s).1 h.0, rename-state P f (m s).0 (m s).1 h.1);
  }

module _ {S E F A B : Type 0} where
  continue-map_err :
      (P : S → Type 0) (k : F → E) (r : Result F A) (g : A → Exec S E B) (s : S)
      → Ends r
      → P s
      → ((a : A) → r ≡ ok a → Ends (g a s).0 × P (g a s).1)
      → Ends (continue (Result.map_err k r) g s).0 × P (continue (Result.map_err k r) g s).1
  continue-map_err P k (ok a) g s e p h = h a refl
  continue-map_err P k (err x) g s e p h = (Ends-err (k x), p)
  continue-map_err P k (panic x) g s e p h = absurd (e x refl)

module _ {S E F A B : Type 0} {P : S → Type 0} where
  -- an answer of the outside that depends on the state, and the rest of the block
  pub Total-reads :
      (f : S → Result F A) (k : F → E) (g : A → Exec S E B)
      → ((s : S) → Ends (f s))
      → ((a : A) (s : S) → P s → f s ≡ ok a → Ends (g a s).0 × P (g a s).1)
      → Total P (gets f >>= λ r. lift (Result.map_err k r) >>= g)
  unfolding ◌>>=◌
  Total-reads f k g ends h = record {
    at = λ s p. continue-map_err P k (f s) g s (ends s) p (λ a e. h a s p e);
  }
