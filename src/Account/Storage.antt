-- ===== src/Account/Storage.antt =====
-- acmed/src/account/storage.rs: an account to and from its file.
use acmed.Base.{String, Option, none, some, [], ◌∷◌, map}
use acmed.Base.Result
use acmed.Base.Result.{Result, ok, err, ◌>>=◌, collect}
use acmed.Base.Dict.{Dict}
use mathlib.Core.Option
use acmed.Error.{Error, from_text, prefix}
use acmed.Crypto.Algorithm
use acmed.Structs.Storage.{
  ExternalAccountStorage, AccountKeyStorage, AccountEndpointStorage, AccountStorage,
}
use acmed.World.{Bytes}
use acmed.Crypto.Keys.{private_key_to_der, from_der}
use acmed.World.Env.{Env}
use acmed.Storage.Paths.{FileManager}
use acmed.Account.Contact
use acmed.Account.Contact.{AccountContact}
use acmed.Account.State.{ExternalAccount, AccountKey, AccountEndpoint, Account}

-- the entries of a map, each through a function
abbrev pub map_values : {A B : Type 0} → (A → B) → Dict A → Dict B
map_values f [] = []
map_values f ((k, v) ∷ m) = (k, f v) ∷ map_values f m

unfoldable pub store_external : ExternalAccount → ExternalAccountStorage
store_external ec = record {
  identifier = ec.identifier;
  key = ec.key;
  signature_algorithm = Algorithm.to_string ec.signature_algorithm;
}

unfoldable pub store_endpoint : AccountEndpoint → AccountEndpointStorage
store_endpoint ep = record {
  creation_date = ep.creation_date;
  account_url = ep.account_url;
  orders_url = ep.orders_url;
  key_hash = ep.key_hash;
  contacts_hash = ep.contacts_hash;
  external_account_hash = ep.external_account_hash;
}

unfoldable pub load_endpoint : AccountEndpointStorage → AccountEndpoint
load_endpoint ep = record {
  creation_date = ep.creation_date;
  account_url = ep.account_url;
  orders_url = ep.orders_url;
  key_hash = ep.key_hash;
  contacts_hash = ep.contacts_hash;
  external_account_hash = ep.external_account_hash;
}

abbrev pub store_contact : AccountContact → String × String
store_contact c = (Contact.type_to_string c.contact_type, c.value)

module _ (env : Env) where
  unfoldable pub load_external : ExternalAccountStorage → Result Error ExternalAccount
  load_external s = do
    alg ← Algorithm.parse env.unicode s.signature_algorithm
    ok (record { identifier = s.identifier; key = s.key; signature_algorithm = alg })

  unfoldable pub store_key : AccountKey → Result Error AccountKeyStorage
  store_key k = do
    der ← private_key_to_der env k.key
    ok (record {
      creation_date = k.creation_date;
      key = der;
      signature_algorithm = Algorithm.to_string k.signature_algorithm;
    })

  unfoldable pub load_key : AccountKeyStorage → Result Error AccountKey
  load_key s = do
    key ← from_der env s.key
    alg ← Algorithm.parse env.unicode s.signature_algorithm
    ok (record { creation_date = s.creation_date; key = key; signature_algorithm = alg })

  unfoldable pub load_contact : String × String → Result Error AccountContact
  load_contact c = Contact.new env.unicode c.0 c.1

  abbrev pub optional : {A B : Type 0} → (A → Result Error B) → Option A → Result Error (Option B)
  optional f none = ok none
  optional f (some a) = f a >>= λ b. ok (some b)

  -- the part of `do_save` before the encoding
  unfoldable pub to_storage : Account → Result Error AccountStorage
  to_storage a = do
    past_keys ← collect store_key a.past_keys
    current_key ← store_key a.current_key
    ok (record {
      name = a.name;
      endpoints = map_values store_endpoint a.endpoints;
      contacts = map store_contact a.contacts;
      current_key = current_key;
      past_keys = past_keys;
      external_account = Option.map store_external a.external_account;
    })

  -- the part of `do_fetch` after the decoding
  unfoldable pub of_storage : FileManager → AccountStorage → Result Error Account
  of_storage fm s = do
    contacts ← collect load_contact s.contacts
    current_key ← load_key s.current_key
    past_keys ← collect load_key s.past_keys
    external_account ← optional load_external s.external_account
    ok (record {
      name = s.name;
      endpoints = map_values load_endpoint s.endpoints;
      contacts = contacts;
      current_key = current_key;
      past_keys = past_keys;
      file_manager = fm;
      external_account = external_account;
    })

  unfoldable pub encode : Account → Result Error Bytes
  encode a = do
    stored ← to_storage a
    Result.map_err (λ e. prefix a.name (from_text e)) (env.serialize stored)

  unfoldable pub decode : FileManager → String → Bytes → Result Error Account
  decode fm name d = do
    stored ← Result.map_err (λ e. prefix name (from_text e)) (env.deserialize d)
    of_storage fm stored
