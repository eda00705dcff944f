-- ===== src/Account/State.antt =====
-- The state of an account in acmed/src/account.rs, and the functions on it that do no output.
use acmed.Base.{
  ℕ, String, ◌<>◌, Option, none, some, List, [], ◌∷◌, ◌++◌, map, ◌==◌, number_eq, list_eq, join,
  if◌then◌else◌,
}
use acmed.Base.Result.{Result, ok, err, ◌>>=◌}
use acmed.Base.Dict
use acmed.Base.Dict.{Dict, insert}
use acmed.Error.{Error, from_text}
use acmed.Crypto.Algorithm.{JwsSignatureAlgorithm}
use acmed.Crypto.Hash.{sha256}
use acmed.World.{Bytes}
use acmed.Crypto.Keys.{public_key_to_pem}
use acmed.World.Env.{Env, KeyPair}
use acmed.Storage.Paths.{FileManager}
use acmed.Account.Contact
use acmed.Account.Contact.{AccountContact}

pub record ExternalAccount : Type 0 where
  pub identifier : String
  pub key : Bytes
  pub signature_algorithm : JwsSignatureAlgorithm

pub record AccountKey : Type 0 where
  pub creation_date : ℕ
  pub key : KeyPair
  pub signature_algorithm : JwsSignatureAlgorithm

pub record AccountEndpoint : Type 0 where
  pub creation_date : ℕ
  pub account_url : String
  pub orders_url : String
  pub key_hash : Bytes
  pub contacts_hash : Bytes
  pub external_account_hash : Bytes

unfoldable pub empty_endpoint : AccountEndpoint
empty_endpoint = record {
  creation_date = 0;
  account_url = "";
  orders_url = "";
  key_hash = [];
  contacts_hash = [];
  external_account_hash = [];
}

pub record Account : Type 0 where
  pub name : String
  pub endpoints : Dict AccountEndpoint
  pub contacts : List AccountContact
  pub current_key : AccountKey
  pub past_keys : List AccountKey
  pub file_manager : FileManager
  pub external_account : Option ExternalAccount

abbrev found : String → String → Option AccountEndpoint → Result Error AccountEndpoint
found endpoint_name name (some ep) = ok ep
found endpoint_name name none = err (
    from_text
      ("\"" <> (endpoint_name <> ("\": unknown endpoint for account \"" <> (name <> "\"")))))

unfoldable pub get_endpoint : String → Account → Result Error AccountEndpoint
get_endpoint endpoint_name a = found endpoint_name a.name (Dict.get endpoint_name a.endpoints)

unfoldable pub add_endpoint_name : String → Account → Account
add_endpoint_name endpoint_name a = elim (Dict.get endpoint_name a.endpoints) [
  | some ep ↦ a
  | none ↦ record a { endpoints = insert endpoint_name empty_endpoint a.endpoints }
]

-- An assignment through `get_endpoint_mut`.
abbrev set_endpoint : String → AccountEndpoint → Account → Account
set_endpoint endpoint_name ep a = record a { endpoints = insert endpoint_name ep a.endpoints }

unfoldable pub set_account_url : String → String → Account → Result Error Account
set_account_url endpoint_name url a = do
  ep ← get_endpoint endpoint_name a
  ok (set_endpoint endpoint_name (record ep { account_url = url }) a)

unfoldable pub set_orders_url : String → String → Account → Result Error Account
set_orders_url endpoint_name url a = do
  ep ← get_endpoint endpoint_name a
  ok (set_endpoint endpoint_name (record ep { orders_url = url }) a)

module _ (env : Env) where
  unfoldable pub hash_contacts : List AccountContact → Bytes
  hash_contacts contacts =
      env.crypto.hash sha256 (env.as_bytes (join "" (map Contact.to_string contacts)))

  unfoldable pub hash_key : AccountKey → Result Error Bytes
  hash_key k = do pem ← public_key_to_pem env k.key; ok (env.crypto.hash sha256 pem)

  unfoldable pub hash_external_account : ExternalAccount → Bytes
  hash_external_account ec = env.crypto.hash sha256 (ec.key ++ env.as_bytes ec.identifier)

  -- the loop of `get_past_key`
  unfoldable pub find_key : Bytes → List AccountKey → Result Error AccountKey
  find_key key_hash [] = err (from_text "key not found")
  find_key key_hash (key ∷ keys) =
      let rest = find_key key_hash keys in
      do past_key_hash ← hash_key key; if past_key_hash == key_hash then ok key else rest

  unfoldable pub get_past_key : Bytes → Account → Result Error AccountKey
  get_past_key key_hash a = find_key key_hash a.past_keys

  unfoldable pub update_key_hash : String → Account → Result Error Account
  update_key_hash endpoint_name a = do
    ep ← get_endpoint endpoint_name a
    h ← hash_key a.current_key
    ok (set_endpoint endpoint_name (record ep { key_hash = h }) a)

  unfoldable pub update_contacts_hash : String → Account → Result Error Account
  update_contacts_hash endpoint_name a = do
    ep ← get_endpoint endpoint_name a
    ok (set_endpoint endpoint_name (record ep { contacts_hash = hash_contacts a.contacts }) a)

  abbrev pub put_external_hash : String → Option ExternalAccount → Account → Result Error Account
  put_external_hash endpoint_name none a = ok a
  put_external_hash endpoint_name (some ec) a = do
    ep ← get_endpoint endpoint_name a
    ok (
        set_endpoint endpoint_name (record ep { external_account_hash = hash_external_account ec })
          a)

  unfoldable pub update_external_account_hash : String → Account → Result Error Account
  update_external_account_hash endpoint_name a =
      put_external_hash endpoint_name a.external_account a
