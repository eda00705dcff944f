-- ===== src/Account/Configured.antt =====
-- The account that `Account::load` of acmed/src/account.rs returns.
use acmed.Base.{String, ◌≡◌, refl, sym, ap, ◌∙◌, Bool, true, false, Option, none, some, List, arith}
use acmed.Base.Result.{ok, collect}
use acmed.Base.Exec.Ensures.{
  Ensures, Ensures-pure, Ensures-bind, Ensures-bind_lift, Ensures-any, Ensures-mono,
}
use acmed.Crypto.Algorithm.{JwsSignatureAlgorithm, algorithm_beq_iff}
use acmed.Crypto.KeyType.{KeyType, key_type_beq_iff, get_default_signature_alg}
use acmed.Crypto.Names.{check_alg_compatibility_iff}
use acmed.World.{World}
use acmed.World.Env.{Env, KeyPair}
use acmed.Storage.Paths.{FileManager}
use acmed.Account.Contact.{AccountContact}
use acmed.Account.State.{ExternalAccount, AccountKey, Account}
use acmed.Account.Storage.{load_contact}
use acmed.Crypto.Keys.Generate.{gen_keypair}
use acmed.Account.Load.{
  load, loaded, update_keys, replace_key, is_current, new_key, configured_key_type,
  configured_algorithm,
}

-- A key of the type, for the algorithm.
record IsFor (t : KeyType) (alg : JwsSignatureAlgorithm) (k : AccountKey) : Type 0 where
  pub key_type : k.key.key_type ≡ t
  pub algorithm : k.signature_algorithm ≡ alg

module _ (env : Env) where
  is_current-IsFor :
      (t : KeyType) (alg : JwsSignatureAlgorithm) (a : Account)
      → is_current env t alg a ≡ true
      → IsFor t alg a.current_key
  unfolding is_current
  is_current-IsFor t alg a h = record {
    key_type = (key_type_beq_iff a.current_key.key.key_type t).0 (ground arith);
    algorithm = (algorithm_beq_iff a.current_key.signature_algorithm alg).0 (ground arith);
  }

  new_key-IsFor :
      (t : KeyType) (alg : JwsSignatureAlgorithm)
      → Ensures (λ _. Unit {0}) (new_key env t alg) (λ k _. IsFor t alg k)
  unfolding new_key gen_keypair
  new_key-IsFor t alg =
      Ensures-bind (λ _ _. Unit) _ _ (Ensures-any _)
        λ now.
          Ensures-bind (λ (k : KeyPair) _. k.key_type ≡ t) _ _
            (Ensures-bind (λ _ _. Unit) _ _ (Ensures-any _)
              λ made.
                Ensures-bind (λ _ _. Unit) _ _ (Ensures-any _)
                  λ _.
                    Ensures-bind (λ _ _. Unit) _ _ (Ensures-any _)
                      λ inner. Ensures-pure _ λ s _. refl)
            λ k. Ensures-pure _ λ s same. record { key_type = same; algorithm = refl }

  replace_key-IsFor :
      (t : KeyType) (alg : JwsSignatureAlgorithm) (a : Account) (b : Bool)
      → is_current env t alg a ≡ b
      → Ensures (λ _. Unit {0}) (replace_key env b t alg a) (λ n _. IsFor t alg n.current_key)
  unfolding replace_key
  replace_key-IsFor t alg a true h = Ensures-pure a λ s _. is_current-IsFor t alg a h
  replace_key-IsFor t alg a false h =
      Ensures-bind (λ k _. IsFor t alg k) _ _ (new_key-IsFor t alg)
        λ key.
          Ensures-bind (λ _ _. IsFor t alg key) _ _ (record { at = λ s p v e. p })
            λ _. Ensures-pure _ λ s p. p

  -- The account has the contacts, the external account and a key of the type and for the algorithm
  -- that the configuration names.
  pub record Configured (contacts : List (String × String)) (key_type algorithm : Option String)
      (external_account : Option ExternalAccount) (a : Account) : Type 0 where
    pub t : KeyType
    pub read_contacts : collect (load_contact env) contacts ≡ ok a.contacts
    pub external : a.external_account ≡ external_account
    pub read_type : configured_key_type env key_type ≡ ok t
    pub read_algorithm : configured_algorithm env t algorithm ≡ ok a.current_key.signature_algorithm
    pub has_type : a.current_key.key.key_type ≡ t
    pub is_default : a.current_key.signature_algorithm ≡ get_default_signature_alg t

  -- what there is of the account once it was fetched or made
  record Fits (cs : List AccountContact) (x : Option ExternalAccount) (t : KeyType)
      (alg : JwsSignatureAlgorithm) (a : Account) : Type 0 where
    contacts : a.contacts ≡ cs
    external : a.external_account ≡ x
    key : IsFor t alg a.current_key

  loaded-Fits :
      (fm : FileManager) (name : String) (cs : List AccountContact) (x : Option ExternalAccount)
      (t : KeyType) (alg : JwsSignatureAlgorithm) (o : Option Account)
      → Ensures (λ _. Unit {0}) (loaded env fm name cs x t alg o) (λ a _. Fits cs x t alg a)
  unfolding loaded update_keys
  loaded-Fits fm name cs x t alg (some a) =
      Ensures-bind (λ n _. IsFor t alg n.current_key) _ _
        (replace_key-IsFor t alg a (is_current env t alg a) refl)
        λ n. Ensures-pure _ λ s p. record { contacts = refl; external = refl; key = p }
  loaded-Fits fm name cs x t alg none =
      Ensures-bind (λ k _. IsFor t alg k) _ _ (new_key-IsFor t alg)
        λ k. Ensures-pure _ λ s p. record { contacts = refl; external = refl; key = p }

  module _ (fm : FileManager) (name : String) (contacts : List (String × String))
      (key_type algorithm : Option String) (external_account : Option ExternalAccount) where
    load_ensures :
        Ensures
          (λ _. Unit {0})
          (load env fm name contacts key_type algorithm external_account)
          (λ a _. Configured contacts key_type algorithm external_account a)
    unfolding load
    load_ensures = Ensures-bind_lift _ _ λ cs read_contacts. Ensures-bind_lift _ _ λ t read_type.
        Ensures-bind_lift _ _ λ alg read_algorithm. Ensures-bind_lift _ _ λ _ compatible.
          Ensures-bind (λ _ _. Unit) _ _ (Ensures-any _)
            λ stored.
              Ensures-mono (loaded-Fits fm name cs external_account t alg stored) λ a s fits.
                record {
                  t = t;
                  read_contacts = read_contacts ∙ ap (λ y. ok y) (sym fits.contacts);
                  external = fits.external;
                  read_type = read_type;
                  read_algorithm = read_algorithm ∙ ap (λ y. ok y) (sym fits.key.algorithm);
                  has_type = fits.key.key_type;
                  is_default =
                      fits.key.algorithm ∙ (check_alg_compatibility_iff t alg).0 compatible;
                }

    -- An account that `load` returns, from its file or new, has the contacts and the external
    -- account of the configuration and a key of the configured type, with the configured algorithm,
    -- which is the default one of that type.
    pub load-Configured :
        (w : World) (a : Account)
        → (load env fm name contacts key_type algorithm external_account w).0 ≡ ok a
        → Configured contacts key_type algorithm external_account a
    load-Configured w a h = load_ensures.at w tt a h
