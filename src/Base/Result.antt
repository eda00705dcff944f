-- ===== src/Base/Result.antt =====
-- `Result<A, E>` with the third way in which a Rust call ends, a panic.
use mathlib.Core.Path.{◌≡◌, refl}
use Prim.Native.String.{String}
use mathlib.Core.Option.{Option, none, some}
use mathlib.Core.List.{List, [], ◌∷◌}

pub data Result {ℓ} (E A : Type ℓ) : Type ℓ where
  ok : A → Result E A
  err : E → Result E A
  panic : String → Result E A

module _ {ℓ} {E A B : Type ℓ} where
  infixl 5 ◌>>=◌ ◌>>◌
  -- the operator `?`
  abbrev pub ◌>>=◌ : Result E A → (A → Result E B) → Result E B
  panic message >>= next = panic message
  err failure >>= next = err failure
  ok value >>= next = next value

  abbrev pub ◌>>◌ : Result E A → Result E B → Result E B
  first >> second = first >>= (λ _. second)

  -- what a chain that succeeds came through
  pub >>=-eq-ok :
      (first : Result E A) (next : A → Result E B) {result : B}
      → (first >>= next) ≡ ok result
      → (value : A) × (first ≡ ok value) × (next value ≡ ok result)
  >>=-eq-ok (panic message) next ran = cc
  >>=-eq-ok (err failure) next ran = cc
  >>=-eq-ok (ok value) next ran = (value, refl, ran)

module _ {ℓ} {E A B : Type ℓ} where
  -- `iter().map(f).collect::<Result<Vec<B>, E>>()`: the first failure ends it.
  abbrev pub collect : (A → Result E B) → List A → Result E (List B)
  collect f [] = ok []
  collect f (x ∷ xs) = f x >>= λ y. collect f xs >>= λ ys. ok (y ∷ ys)

module _ {ℓ} {E F A : Type ℓ} where
  abbrev pub map_err : (E → F) → Result E A → Result F A
  map_err f (ok a) = ok a
  map_err f (err e) = err (f e)
  map_err f (panic s) = panic s

module _ {ℓ} {E A : Type ℓ} where
  abbrev pub ok_or : Option A → E → Result E A
  ok_or none e = err e
  ok_or (some a) e = ok a
