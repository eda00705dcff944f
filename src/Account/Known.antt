-- ===== src/Account/Known.antt =====
-- What an account knows of its state at an endpoint, under the functions of acmed/src/account.rs.
use acmed.Base.{
  String, arith, subst, ◌≡◌, refl, ◌∙◌, Bool, true, false, Option, none, some, string_eq, eq_refl,
}
use acmed.Base.Result.{Result, ok, >>=-eq-ok}
use acmed.Base.Dict
use acmed.Base.Dict.{get-insert, insert}
use acmed.Error.{Error}
use acmed.World.{Bytes}
use acmed.World.Env.{Env}
use acmed.Account.State.{
  Account, AccountEndpoint, ExternalAccount, get_endpoint, set_account_url, set_orders_url,
  put_external_hash, hash_key, hash_contacts, hash_external_account, update_key_hash,
  update_contacts_hash, update_external_account_hash,
}

abbrev pub SameExternal : Env → Option ExternalAccount → Bytes → Type 0
SameExternal env none h = Unit
SameExternal env (some ec) h = h ≡ hash_external_account env ec

-- The account has an entry for the endpoint, whose hashes are those of its current key, contacts
-- and external account, each if the Boolean for it is true.
pub record Known (env : Env) (k c x : Bool) (name : String) (a : Account) : Type 0 where
  pub entry : AccountEndpoint
  pub found : Dict.get name a.endpoints ≡ some entry
  pub key : k ≡ true → hash_key env a.current_key ≡ ok entry.key_hash
  pub contacts : c ≡ true → entry.contacts_hash ≡ hash_contacts env a.contacts
  pub external : x ≡ true → SameExternal env a.external_account entry.external_account_hash

abbrev put : String → AccountEndpoint → Account → Account
put name ep a = record a { endpoints = insert name ep a.endpoints }

get-put :
    (name : String) (ep : AccountEndpoint) (a : Account)
    → Dict.get name (put name ep a).endpoints ≡ some ep
get-put name ep a = get-insert name name ep a.endpoints ∙ rw (eq_refl name) refl

pub get_endpoint-found :
    (name : String) (a : Account) (ep : AccountEndpoint)
    → get_endpoint name a ≡ ok ep
    → Dict.get name a.endpoints ≡ some ep
unfolding get_endpoint
get_endpoint-found name a ep h = ground arith

pub found-get_endpoint :
    (name : String) (a : Account) (ep : AccountEndpoint)
    → Dict.get name a.endpoints ≡ some ep
    → get_endpoint name a ≡ ok ep
unfolding get_endpoint
found-get_endpoint name a ep h = rw h refl

module _ (env : Env) (name : String) where
  -- The result of a change is the account with a new entry, and the entry is right.
  change-Known :
      {k c x : Bool} (a b : Account) (ep : AccountEndpoint)
      → Known env k c x name (put name ep a)
      → ◌≡◌ {A = Result Error Account} (ok (put name ep a)) (ok b)
      → Known env k c x name b
  change-Known {k} {c} {x} a b ep known e = subst (λ y. Known env k c x name y) (cc e) known

  pub set_account_url-Known :
      (url : String) (a b : Account)
      → set_account_url name url a ≡ ok b
      → Known env false false false name b
  unfolding set_account_url
  set_account_url-Known url a b h =
      let (ep, e, q) = >>=-eq-ok (get_endpoint name a) _ h in
      change-Known a b (record ep { account_url = url })
        (record {
          entry = record ep { account_url = url };
          found = get-put name (record ep { account_url = url }) a;
          key = λ t. cc t;
          contacts = λ t. cc t;
          external = λ t. absurd (cc t);
        })
        q

  module _ {k c x : Bool} (a : Account) (known : Known env k c x name a) where
    there : get_endpoint name a ≡ ok known.entry
    there = found-get_endpoint name a known.entry known.found

    pub set_orders_url-Known :
        (url : String) (b : Account) → set_orders_url name url a ≡ ok b → Known env k c x name b
    unfolding set_orders_url
    set_orders_url-Known url b h =
        change-Known a b (record (known.entry) { orders_url = url })
          (record {
            entry = record (known.entry) { orders_url = url };
            found = get-put name (record (known.entry) { orders_url = url }) a;
            key = known.key;
            contacts = known.contacts;
            external = known.external;
          })
          (rw there at h)

    pub update_key_hash-Known :
        (b : Account) → update_key_hash env name a ≡ ok b → Known env true c x name b
    unfolding update_key_hash
    update_key_hash-Known b h =
        let (key_hash, e, q) = >>=-eq-ok (hash_key env a.current_key) _ (rw there at h) in
        change-Known a b (record (known.entry) { key_hash = key_hash })
          (record {
            entry = record (known.entry) { key_hash = key_hash };
            found = get-put name (record (known.entry) { key_hash = key_hash }) a;
            key = λ _. e;
            contacts = known.contacts;
            external = known.external;
          })
          q

    pub update_contacts_hash-Known :
        (b : Account) → update_contacts_hash env name a ≡ ok b → Known env k true x name b
    unfolding update_contacts_hash
    update_contacts_hash-Known b h =
        change-Known a b (record (known.entry) { contacts_hash = hash_contacts env a.contacts })
          (record {
            entry = record (known.entry) { contacts_hash = hash_contacts env a.contacts };
            found =
                get-put name (record (known.entry) { contacts_hash = hash_contacts env a.contacts })
                  a;
            key = known.key;
            contacts = λ _. refl;
            external = known.external;
          })
          (rw there at h)

    pub update_external-Known :
        (o : Option ExternalAccount) (b : Account)
        → o ≡ a.external_account
        → put_external_hash env name o a ≡ ok b
        → Known env k c true name b
    update_external-Known none b same h =
        let unchanged : a ≡ b = cc h in
        subst (λ y. Known env k c true name y) unchanged
          (record {
            entry = known.entry;
            found = known.found;
            key = known.key;
            contacts = known.contacts;
            external =
                λ _. subst (λ o. SameExternal env o known.entry.external_account_hash) same tt;
          })
    update_external-Known (some ec) b same h =
        change-Known a b
          (record (known.entry) { external_account_hash = hash_external_account env ec })
          (record {
            entry = record (known.entry) { external_account_hash = hash_external_account env ec };
            found =
                get-put name
                  (record (known.entry) { external_account_hash = hash_external_account env ec }) a;
            key = known.key;
            contacts = known.contacts;
            external =
                λ _. subst (λ o. SameExternal env o (hash_external_account env ec)) same refl;
          })
          (rw there at h)

    pub update_external_account_hash-Known :
        (b : Account) → update_external_account_hash env name a ≡ ok b → Known env k c true name b
    unfolding update_external_account_hash
    update_external_account_hash-Known b h = update_external-Known a.external_account b refl h
