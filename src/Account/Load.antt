-- ===== src/Account/Load.antt =====
-- How an account reaches its file and comes back, and `Account::load` of acmed/src/account.rs.
use acmed.Base.{String, ◌<>◌, Bool, true, false, ◌&&◌, Option, none, some, List, [], ◌∷◌, ◌++◌}
use acmed.Base.Result.{Result, ok, collect}
use acmed.Base.Exec.{pure, lift, gets, ◌>>=◌, ◌>>◌, map_err}
use acmed.Error.{Error, from_text}
use acmed.Crypto.Algorithm
use acmed.Crypto.Algorithm.{JwsSignatureAlgorithm, algorithm_beq}
use acmed.Crypto.KeyType
use acmed.Crypto.KeyType.{
  KeyType, key_type_beq, ecdsa_p256, check_alg_compatibility, get_default_signature_alg,
}
use acmed.Crypto.Keys.Generate.{gen_keypair}
use acmed.World.Env.{Env}
use acmed.World.Io.{Io}
use acmed.Storage.Paths.{FileManager}
use acmed.Storage.Files.{get_account_data, set_account_data, account_files_exists}
use acmed.Account.Contact
use acmed.Account.State.{ExternalAccount, AccountKey, Account}
use acmed.Account.Storage.{encode, decode, load_contact}

abbrev pub default_account_key_type : KeyType
default_account_key_type = ecdsa_p256

module _ (env : Env) where
  unfoldable pub do_save : FileManager → Account → Io (Unit {0})
  do_save fm a = do encoded ← lift (encode env a); set_account_data env fm encoded

  fetch_if : Bool → FileManager → String → Io (Option Account)
  fetch_if false fm name = pure none
  fetch_if true fm name = do
    d ← get_account_data env fm
    a ← lift (decode env fm name d)
    pure (some a)

  unfoldable pub do_fetch : FileManager → String → Io (Option Account)
  unfolding fetch_if
  do_fetch fm name = do exists ← gets (account_files_exists env fm); fetch_if exists fm name

  unfoldable pub save : FileManager → Account → Io (Unit {0})
  save fm a = map_err (λ e. from_text ("unable to save account file: " <> e.message)) (do_save fm a)

  unfoldable pub fetch : FileManager → String → Io (Option Account)
  fetch fm name =
      map_err
        (λ _.
          from_text
            ("account \"" <> (name <> "\": unable to load account file: file may be corrupted")))
        (do_fetch fm name)

  -- `AccountKey::new`
  unfoldable pub new_key : KeyType → JwsSignatureAlgorithm → Io AccountKey
  new_key key_type signature_algorithm = do
    now ← gets env.now
    key ← gen_keypair env key_type
    pure (record { creation_date = now; key = key; signature_algorithm = signature_algorithm })

  unfoldable pub is_current : KeyType → JwsSignatureAlgorithm → Account → Bool
  is_current key_type signature_algorithm a =
      key_type_beq a.current_key.key.key_type key_type
      && algorithm_beq a.current_key.signature_algorithm signature_algorithm

  -- The account is the function's own until it returns it.
  unfoldable pub replace_key : Bool → KeyType → JwsSignatureAlgorithm → Account → Io Account
  replace_key true key_type signature_algorithm a = pure a
  replace_key false key_type signature_algorithm a = do
    key ← new_key key_type signature_algorithm
    let renewed = record a { past_keys = a.past_keys ++ (a.current_key ∷ []); current_key = key }
    save renewed.file_manager renewed
    pure renewed

  unfoldable pub update_keys : KeyType → JwsSignatureAlgorithm → Account → Io Account
  update_keys key_type signature_algorithm a =
      replace_key (is_current key_type signature_algorithm a) key_type signature_algorithm a

  unfoldable pub configured_key_type : Option String → Result Error KeyType
  configured_key_type none = ok default_account_key_type
  configured_key_type (some kt) = KeyType.parse env.unicode kt

  unfoldable pub configured_algorithm : KeyType → Option String → Result Error JwsSignatureAlgorithm
  configured_algorithm key_type none = ok (get_default_signature_alg key_type)
  configured_algorithm key_type (some sa) = Algorithm.parse env.unicode sa

  -- what `load` does with the account of the file, or without one
  unfoldable pub loaded :
      FileManager
      → String
      → List Contact.AccountContact
      → Option ExternalAccount
      → KeyType
      → JwsSignatureAlgorithm
      → Option Account
      → Io Account
  loaded fm name contacts external_account key_type signature_algorithm (some a) = do
    a ← update_keys key_type signature_algorithm a
    pure (record a { contacts = contacts; external_account = external_account })
  loaded fm name contacts external_account key_type signature_algorithm none = do
    key ← new_key key_type signature_algorithm
    pure (record {
      name = name;
      endpoints = [];
      contacts = contacts;
      current_key = key;
      past_keys = [];
      file_manager = fm;
      external_account = external_account;
    })

  unfoldable pub load :
      FileManager
      → String
      → List (String × String)
      → Option String
      → Option String
      → Option ExternalAccount
      → Io Account
  load fm name contacts key_type signature_algorithm external_account = do
    contacts ← lift (collect (load_contact env) contacts)
    key_type ← lift (configured_key_type key_type)
    signature_algorithm ← lift (configured_algorithm key_type signature_algorithm)
    lift (check_alg_compatibility key_type signature_algorithm)
    stored ← fetch fm name
    loaded fm name contacts external_account key_type signature_algorithm stored
