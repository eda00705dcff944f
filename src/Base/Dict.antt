-- ===== src/Base/Dict.antt =====
-- `HashMap<String, V>` as an association list with one entry for a key. The order of a map's
-- entries means nothing: `get` after `insert` is what the laws below speak of.
use acmed.Base.Tests.{◌==◌, string_eq, if◌then◌else◌}
use Prim.Native.String.{String}
use mathlib.Core.Path.{◌≡◌, refl}
use mathlib.Core.Bool.{Bool, true, false}
use mathlib.Core.Option.{Option, none, some}
use mathlib.Core.List.{List, [], ◌∷◌}
use native.Mathlib.Omega.{arith}
use text.Mathlib.TextEquality.{eq_iff}

abbrev pub Dict {ℓ} : Type ℓ → Type ℓ
Dict V = List (String × V)

module _ {ℓ} {V : Type ℓ} where
  unfoldable pub get : String → Dict V → Option V
  get k [] = none
  get k ((j, v) ∷ m) = if j == k then some v else get k m

  unfoldable pub insert : String → V → Dict V → Dict V
  insert k v [] = (k, v) ∷ []
  insert k v ((j, w) ∷ m) = if j == k then (k, v) ∷ m else (j, w) ∷ insert k v m

  abbrev pub contains_key : String → Dict V → Bool
  contains_key k m = elim (get k m) [ none ↦ false | some v ↦ true ]

  -- `extend`: the entries of the second map go over those of the first.
  unfoldable pub extend : Dict V → Dict V → Dict V
  extend m [] = m
  extend m ((k, v) ∷ more) = extend (insert k v m) more

  pub get-insert :
      (k j : String) (v : V) (m : Dict V)
      → get j (insert k v m) ≡ (if k == j then some v else get j m)
  unfolding get insert
  get-insert k j v [] = refl
  get-insert k j v ((i, w) ∷ m) =
      ground (arith, eq_iff k j, eq_iff i k, eq_iff i j, get-insert k j v m)

  -- one entry for each key
  abbrev pub Distinct : Dict V → Type ℓ
  Distinct [] = Unit
  Distinct ((k, v) ∷ m) = (get k m ≡ none) × Distinct m

  abbrev pub or_else : Option V → Option V → Option V
  or_else none o = o
  or_else (some v) o = some v

  pub get-extend :
      (k : String) (m more : Dict V)
      → Distinct more
      → get k (extend m more) ≡ or_else (get k more) (get k m)
  unfolding get extend
  get-extend k m [] h = refl
  get-extend k m ((j, v) ∷ more) h =
      ground (arith, get-extend k (insert j v m) more h.1, get-insert j k v m, eq_iff j k, h.0)
