-- ===== src/Account/RoundTrip.antt =====
-- An account that acmed/src/account/storage.rs writes, and reads again.
use acmed.Base.{
  String, ◌≡◌, refl, ap, Option, none, some, List, [], ◌∷◌, map, All, to_lowercase, replace, subst,
}
use acmed.Base.Result.{Result, ok, err, panic, >>=-eq-ok, collect, map_err}
use acmed.Base.Dict.{Dict}
use mathlib.Core.Option
use acmed.Error.{from_openssl}
use acmed.Crypto.Algorithm
use acmed.Crypto.Names.{Algorithm_parse-to_string}
use acmed.Structs.Storage.{AccountKeyStorage, AccountStorage}
use acmed.World.{Bytes}
use acmed.Crypto.Keys.{get_key_type, key_pair_of, private_key_to_der, from_der}
use acmed.World.Env.{Env}
use acmed.Account.Contact
use acmed.Account.Contact.{AccountContact, ContactType, mailto}
use acmed.Account.State.{ExternalAccount, AccountKey, AccountEndpoint, Account}
use acmed.Account.Storage.{
  map_values, store_external, store_endpoint, load_endpoint, store_contact, load_external,
  store_key, load_key, load_contact, optional, to_storage, of_storage, encode, decode,
}

-- bincode reads the stored form of an account that it wrote, and OpenSSL a key, whose kind is that of
-- the key pair.
pub record Serializes (env : Env) (a : Account) : Type 0 where
  pub reads :
      (s : AccountStorage) (d : Bytes)
      → to_storage env a ≡ ok s
      → env.serialize s ≡ ok d
      → env.deserialize d ≡ ok s

pub record Exports (env : Env) (k : AccountKey) : Type 0 where
  pub reads :
      (d : Bytes)
      → env.crypto.private_key_to_der k.key.inner_key ≡ ok d
      → env.crypto.private_key_from_der d ≡ ok k.key.inner_key
  pub typed : get_key_type env k.key.inner_key ≡ ok k.key.key_type

endpoints_back :
    (m : Dict AccountEndpoint) → map_values load_endpoint (map_values store_endpoint m) ≡ m
unfolding load_endpoint store_endpoint
endpoints_back [] = refl
endpoints_back ((k, v) ∷ m) = ap (λ n. (k, v) ∷ n) (endpoints_back m)

module _ {E F A : Type 0} where
  map_err-ok : (f : E → F) (r : Result E A) {a : A} → map_err f r ≡ ok a → r ≡ ok a
  map_err-ok f (ok x) h = ap (λ y. ok y) (cc h)
  map_err-ok f (err e) h = absurd (cc)
  map_err-ok f (panic m) h = absurd (cc)

module _ (env : Env) where
  contact_back :
      (t : ContactType) (v : String)
      → load_contact env (Contact.type_to_string t, v) ≡ ok (record { contact_type = t; value = v })
  unfolding load_contact Contact.new Contact.parse Contact.type_to_string Contact.clean_value
      to_lowercase replace
  contact_back mailto v = refl

  contacts_back :
      (cs : List AccountContact) → collect (load_contact env) (map store_contact cs) ≡ ok cs
  contacts_back [] = refl
  contacts_back (c ∷ cs) = rw (contact_back c.contact_type c.value) (rw (contacts_back cs) refl)

  external_back :
      (x : Option ExternalAccount)
      → optional env (load_external env) (Option.map store_external x) ≡ ok x
  unfolding load_external store_external
  external_back none = refl
  external_back (some ec) = rw (Algorithm_parse-to_string env.unicode ec.signature_algorithm) refl

  key_back :
      (k : AccountKey) (s : AccountKeyStorage)
      → Exports env k
      → store_key env k ≡ ok s
      → load_key env s ≡ ok k
  unfolding load_key store_key private_key_to_der from_der key_pair_of
  key_back k s exports h =
      let (der, e, q) =
        >>=-eq-ok (map_err from_openssl (env.crypto.private_key_to_der k.key.inner_key)) _ h in
      let stored : AccountKeyStorage = record {
        creation_date = k.creation_date;
        key = der;
        signature_algorithm = Algorithm.to_string k.signature_algorithm;
      } in
      let same : stored ≡ s = cc q in
      subst (λ x. load_key env x ≡ ok k) same
        (rw (exports.reads der (map_err-ok from_openssl _ e)) (
          rw exports.typed (rw (Algorithm_parse-to_string env.unicode k.signature_algorithm) refl)))

  keys_back :
      (ks : List AccountKey) (ss : List AccountKeyStorage)
      → All (Exports env) ks
      → collect (store_key env) ks ≡ ok ss
      → collect (load_key env) ss ≡ ok ks
  keys_back [] ss exports h =
      let same : [] ≡ ss = cc h in subst (λ xs. collect (load_key env) xs ≡ ok []) same refl
  keys_back (k ∷ ks) ss exports h =
      let (s, e, q) = >>=-eq-ok (store_key env k) _ h in
      let (more, e', q') = >>=-eq-ok (collect (store_key env) ks) _ q in
      let same : (s ∷ more) ≡ ss = cc q' in
      subst (λ xs. collect (load_key env) xs ≡ ok (k ∷ ks)) same
        (rw (key_back k s exports.0 e) (rw (keys_back ks more exports.1 e') refl))

  module _ (a : Account) (current : Exports env a.current_key)
      (past : All (Exports env) a.past_keys) where
    storage_back :
        (s : AccountStorage) → to_storage env a ≡ ok s → of_storage env a.file_manager s ≡ ok a
    unfolding to_storage of_storage
    storage_back s h =
        let (ps, e, q) = >>=-eq-ok (collect (store_key env) a.past_keys) _ h in
        let (c, e', q') = >>=-eq-ok (store_key env a.current_key) _ q in
        let stored : AccountStorage = record {
          name = a.name;
          endpoints = map_values store_endpoint a.endpoints;
          contacts = map store_contact a.contacts;
          current_key = c;
          past_keys = ps;
          external_account = Option.map store_external a.external_account;
        } in
        let same : stored ≡ s = cc q' in
        subst (λ x. of_storage env a.file_manager x ≡ ok a) same
          (rw (contacts_back a.contacts) (
            rw (key_back a.current_key c current e') (
              rw (keys_back a.past_keys ps past e)
                (rw (external_back a.external_account) (rw (endpoints_back a.endpoints) refl)))))

    -- Where bincode reads the stored form of the account that it wrote, and OpenSSL each key of the account, an account that is
    -- encoded for its file is the account that is decoded from it.
    pub decode-encode :
        (name : String) (d : Bytes)
        → Serializes env a
        → encode env a ≡ ok d
        → decode env a.file_manager name d ≡ ok a
    unfolding encode decode
    decode-encode name d codec h =
        let (s, e, q) = >>=-eq-ok (to_storage env a) _ h in
        rw (codec.reads s d e (map_err-ok _ _ q)) (storage_back s e)
