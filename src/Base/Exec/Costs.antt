-- ===== src/Base/Exec/Costs.antt =====
-- How far an action can raise a number read off the state, such as a count of requests, whether the
-- action returns or fails.
use Prim.Native.Nat.{ℕ, ◌+◌, ◌≤◌}
use native.Mathlib.Omega.{arith}
use acmed.Base.Result.{Result, ok, err, panic}
use acmed.Base.Exec.{Exec, continue, ◌>>=◌}
use acmed.Base.Exec.Keeps.{Keeps}

pub record Costs {S E A : Type 0} (size : S → ℕ) (k : ℕ) (m : Exec S E A) : Type 0 where
  pub at : (s : S) → size (m s).1 ≤ size s + k

module _ {S E A : Type 0} {size : S → ℕ} where
  -- What keeps every bound costs nothing.
  pub Costs-of_Keeps : (m : Exec S E A) → ((n : ℕ) → Keeps (λ s. size s ≤ n) m) → Costs size 0 m
  Costs-of_Keeps m h = record { at = λ s. (h (size s + 0)).at s (omega arith) }

  pub Costs-le : (m : Exec S E A) {k n : ℕ} → Costs size k m → k ≤ n → Costs size n m
  Costs-le m h le = record { at = λ s. omega (arith, h.at s) }

module _ {S E A B : Type 0} {size : S → ℕ} where
  continue-le :
      (n : ℕ) (r : Result E A) (f : A → Exec S E B)
      → ((a : A) → Costs size n (f a))
      → (s : S) → size (continue r f s).1 ≤ size s + n
  continue-le n (ok a) f h s = (h a).at s
  continue-le n (err e) f h s = omega arith
  continue-le n (panic x) f h s = omega arith

  pub Costs-bind :
      (k n : ℕ) (m : Exec S E A) (f : A → Exec S E B)
      → Costs size k m
      → ((a : A) → Costs size n (f a))
      → Costs size (k + n) (m >>= f)
  unfolding ◌>>=◌
  Costs-bind k n m f hm hf = record {
    at = λ s. omega (arith, hm.at s, continue-le n (m s).0 f hf (m s).1);
  }
