-- ===== src/Account/PastKeys.antt =====
-- The keys of an account whose configured key changes, in acmed/src/account.rs.
use acmed.Base.{◌≡◌, refl, Bool, true, false, [], ◌∷◌, ◌++◌, ◌⊎◌, inl, inr}
use acmed.Base.Result.{ok}
use acmed.Base.Exec.Ensures.{Ensures, Ensures-pure, Ensures-bind, Ensures-any}
use acmed.Crypto.Algorithm.{JwsSignatureAlgorithm}
use acmed.Crypto.KeyType.{KeyType}
use acmed.World.{World}
use acmed.World.Env.{Env}
use acmed.Account.State.{Account}
use acmed.Account.Load.{replace_key, update_keys, is_current}

-- The endpoints are the same, and so is the rest, or the key before is the last of the past keys.
pub record KeepsKey (a b : Account) : Type 0 where
  pub endpoints : b.endpoints ≡ a.endpoints
  pub keys : (b ≡ a) ⊎ (b.past_keys ≡ a.past_keys ++ (a.current_key ∷ []))

module _ (env : Env) (t : KeyType) (alg : JwsSignatureAlgorithm) (a : Account) where
  replace_key-KeepsKey :
      (b : Bool) → Ensures (λ _. Unit {0}) (replace_key env b t alg a) (λ n _. KeepsKey a n)
  unfolding replace_key
  replace_key-KeepsKey true = Ensures-pure a λ s _. record { endpoints = refl; keys = inl refl }
  replace_key-KeepsKey false =
      Ensures-bind (λ _ _. Unit) _ _ (Ensures-any _)
        λ key.
          Ensures-bind (λ _ _. Unit) _ _ (Ensures-any _)
            λ _. Ensures-pure _ λ s _. record { endpoints = refl; keys = inr refl }

  -- When `update_keys` succeeds, what the account knows of its endpoints is the same, and either it
  -- is the same account or the key before is at the end of its past keys, so that a change of keys
  -- at an endpoint can still be signed with it.
  pub update_keys-KeepsKey :
      (w : World) (b : Account) → (update_keys env t alg a w).0 ≡ ok b → KeepsKey a b
  unfolding update_keys
  update_keys-KeepsKey w b h = (replace_key-KeepsKey (is_current env t alg a)).at w tt b h
