-- ===== src/Base/Exec/Ensures.antt =====
-- What holds when an action returns a value: one rule for each way to build an action.
use mathlib.Core.Path.{◌≡◌, refl, ap, subst, sym}
use acmed.Base.Result.{Result, ok, err, panic}
use acmed.Base.Exec.Keeps.{Keeps}
use acmed.Base.Exec.{Exec, pure, fail, lift, gets, modify, continue, ◌>>=◌, map_err, rename}

-- If `P` holds before `m` and `m` returns `a`, then `Q a` holds after it.
pub record Ensures {ℓ} {S E A : Type ℓ} (P : S → Type ℓ) (m : Exec S E A) (Q : A → S → Type ℓ)
    : Type ℓ where
  pub at : (s : S) → P s → (a : A) → (m s).0 ≡ ok a → Q a (m s).1

module _ {ℓ} {E A : Type ℓ} where
  of_ok : A → Result E A → A
  of_ok d (ok x) = x
  of_ok d (err _) = d
  of_ok d (panic _) = d

  ok_injective : {a b : A} → ◌≡◌ {A = Result E A} (ok a) (ok b) → a ≡ b
  unfolding of_ok
  ok_injective {a} e = ap (of_ok a) e

module _ {ℓ} {S E A : Type ℓ} {P : S → Type ℓ} where
  pub Ensures-pure :
      {Q : A → S → Type ℓ} (a : A) → ((s : S) → P s → Q a s) → Ensures P (pure {E = E} a) Q
  unfolding pure
  Ensures-pure {Q} a h = record { at = λ s p b e. subst (λ x. Q x s) (ok_injective e) (h s p) }

  pub Ensures-fail : (e : E) (Q : A → S → Type ℓ) → Ensures P (fail {A = A} e) Q
  unfolding fail
  Ensures-fail e Q = record { at = λ s p b h. cc }

  -- A failing computed result ensures anything; a value is known to come from it.
  pub Ensures-lift :
      {Q : A → S → Type ℓ} (r : Result E A)
      → ((s : S) (a : A) → P s → r ≡ ok a → Q a s)
      → Ensures P (lift r) Q
  unfolding lift
  Ensures-lift r h = record { at = λ s p a e. h s a p e }

  pub Ensures-mono :
      {Q R : A → S → Type ℓ} {m : Exec S E A}
      → Ensures P m Q
      → ((a : A) (s : S) → Q a s → R a s)
      → Ensures P m R
  Ensures-mono h k = record { at = λ s p a e. k a _ (h.at s p a e) }

  pub Ensures-of_Keeps : (m : Exec S E A) → Keeps P m → Ensures P m (λ _. P)
  Ensures-of_Keeps m h = record { at = λ s p a e. h.at s p }

  pub Ensures-any : (m : Exec S E A) → Ensures P m (λ _ _. Unit)
  Ensures-any m = record { at = λ s p a e. tt }

module _ {ℓ} {S E A B : Type ℓ} where
  continue-ensures :
      {Q : B → S → Type ℓ} (R : A → S → Type ℓ) (r : Result E A) (f : A → Exec S E B)
      → ((a : A) → Ensures (R a) (f a) Q)
      → (s : S) → ((a : A) → r ≡ ok a → R a s)
      → (b : B) → (continue r f s).0 ≡ ok b
      → Q b (continue r f s).1
  continue-ensures R (ok a) f h s hr b e = (h a).at s (hr a refl) b e
  continue-ensures R (err x) f h s hr b e = cc
  continue-ensures R (panic x) f h s hr b e = cc

module _ {ℓ} {S E A B : Type ℓ} {P : S → Type ℓ} where
  pub Ensures-bind :
      {Q : B → S → Type ℓ} (R : A → S → Type ℓ) (m : Exec S E A) (f : A → Exec S E B)
      → Ensures P m R
      → ((a : A) → Ensures (R a) (f a) Q)
      → Ensures P (m >>= f) Q
  unfolding ◌>>=◌
  Ensures-bind R m f hm hf = record {
    at = λ s p b e. continue-ensures R (m s).0 f hf (m s).1 (hm.at s p) b e;
  }

module _ {ℓ} {S E F A : Type ℓ} where
  rename-ensures :
      (Q : A → S → Type ℓ) (f : E → F) (r : Result E A) (s : S)
      → ((a : A) → r ≡ ok a → Q a s)
      → (a : A) → (rename f (r, s)).0 ≡ ok a
      → Q a (rename f (r, s)).1
  rename-ensures Q f (ok x) s h a e = h a (cc)
  rename-ensures Q f (err x) s h a e = cc
  rename-ensures Q f (panic x) s h a e = cc

module _ {ℓ} {S E F A : Type ℓ} {P : S → Type ℓ} where
  pub Ensures-map_err :
      {Q : A → S → Type ℓ} (f : E → F) (m : Exec S E A) → Ensures P m Q → Ensures P (map_err f m) Q
  unfolding map_err
  Ensures-map_err {Q} f m h = record {
    at = λ s p a e. rename-ensures Q f (m s).0 (m s).1 (h.at s p) a e;
  }

module _ {ℓ} {S E : Type ℓ} {P : S → Type ℓ} where
  pub Ensures-modify :
      {Q : Unit {ℓ} → S → Type ℓ} (f : S → S)
      → ((s : S) → P s → Q tt (f s))
      → Ensures P (modify {E = E} f) Q
  unfolding modify
  Ensures-modify f h = record { at = λ s p a e. h s p }

module _ {ℓ} {S E A B : Type ℓ} {P : S → Type ℓ} where
  -- What is read is a function of the state, which the rest of the block starts in.
  pub Ensures-bind_gets :
      {Q : B → S → Type ℓ} (f : S → A) (g : A → Exec S E B)
      → ((s : S) → P s → (b : B) → (g (f s) s).0 ≡ ok b → Q b (g (f s) s).1)
      → Ensures P (gets f >>= g) Q
  unfolding ◌>>=◌
  Ensures-bind_gets f g h = record { at = h }

  continue_lift :
      {Q : B → S → Type ℓ} (r : Result E A) (g : A → Exec S E B)
      → ((a : A) → r ≡ ok a → Ensures P (g a) Q)
      → (s : S) → P s
      → (b : B) → (continue r g s).0 ≡ ok b
      → Q b (continue r g s).1
  continue_lift (ok a) g h s p b e = (h a refl).at s p b e
  continue_lift (err x) g h s p b e = cc
  continue_lift (panic x) g h s p b e = cc

  -- The rest of the block may use what a computed result says of its value.
  pub Ensures-bind_lift :
      {Q : B → S → Type ℓ} (r : Result E A) (g : A → Exec S E B)
      → ((a : A) → r ≡ ok a → Ensures P (g a) Q)
      → Ensures P (lift r >>= g) Q
  unfolding ◌>>=◌
  Ensures-bind_lift r g h = record { at = continue_lift r g h }

module _ {ℓ} {S E A : Type ℓ} {P : S → Type ℓ} where
  pub Ensures-pre :
      {Q : A → S → Type ℓ} {m : Exec S E A} (R : S → Type ℓ)
      → ((s : S) → P s → R s)
      → Ensures R m Q
      → Ensures P m Q
  Ensures-pre R h k = record { at = λ s p. k.at s (h s p) }

module _ {ℓ} {S E A B : Type ℓ} {P : S → Type ℓ} where
  -- What is read is known beforehand.
  pub Ensures-gets_known :
      {Q : B → S → Type ℓ} (f : S → A) (g : A → Exec S E B) (a : A)
      → ((s : S) → P s → f s ≡ a)
      → Ensures P (g a) Q
      → Ensures P (gets f >>= g) Q
  unfolding ◌>>=◌
  Ensures-gets_known {Q} f g a known h = record {
    at = λ s p b. subst (λ x. (g x s).0 ≡ ok b → Q b (g x s).1) (sym (known s p)) (h.at s p b);
  }

  -- The rest of the block may use that the state had this value.
  pub Ensures-gets :
      {Q : B → S → Type ℓ} (f : S → A) (g : A → Exec S E B)
      → ((a : A) → Ensures (λ s. P s × (f s ≡ a)) (g a) Q)
      → Ensures P (gets f >>= g) Q
  unfolding ◌>>=◌
  Ensures-gets f g h = record { at = λ s p. (h (f s)).at s (p, refl) }
