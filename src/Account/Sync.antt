-- ===== src/Account/Sync.antt =====
-- acmed/src/acme_proto/account.rs and `Account::synchronize` of acmed/src/account.rs: the account
-- and what the server knows of it.
use acmed.Base.{
  String, Bool, false, not, Option, none, some, map, ◌==◌, list_eq, number_eq, if◌then◌else◌,
  unwrap_or, is_empty,
}
use acmed.Base.Result
use acmed.Base.Result.{Result, ok, err, panic}
use acmed.Base.Exec.{Exec, pure, fail, lift, gets, ◌>>=◌, ◌>>◌, map_err}
use acmed.Error.{Error, from_text, from_json}
use acmed.Config.Types
use acmed.Structs.Problem.{acme_error_beq, get_acme_type, to_error, account_does_not_exist}
use acmed.Structs.Account.{AccountResponse}
use acmed.World.{World}
use acmed.World.Env.{Env}
use acmed.World.Io.{Io}
use acmed.Endpoint.{Endpoint}
use acmed.Crypto.Keys.Jwk.{jwk_public_key}
use acmed.Jws.{encode_jwk, encode_kid}
use acmed.Http.Client.{
  Net, M, HttpError, api_error, generic_error, in_err, get_header, json, header_location,
}
use acmed.Http.Requests.{post_jose}
use acmed.Account.Contact
use acmed.Account.Messages.{account_request, data_builder}
use acmed.Account.State.{
  Account, AccountEndpoint, ExternalAccount, get_endpoint, set_account_url, set_orders_url,
  update_key_hash, update_contacts_hash, update_external_account_hash, get_past_key, hash_key,
  hash_contacts, hash_external_account,
}
use acmed.Account.Load.{save}

pub record Sys : Type 0 where
  pub account : Account
  pub endpoint : Endpoint
  pub world : World

module _ {X A : Type 0} where
  unfoldable pub on_net : Exec Net X A → Exec Sys X A
  on_net m s =
      let (r, n) = m (record { endpoint = s.endpoint; world = s.world }) in
      (r, record s { endpoint = n.endpoint; world = n.world })

unfoldable pub on_world : {A : Type 0} → Io A → Exec Sys Error A
on_world m s = let (r, w) = m s.world in (r, record s { world = w })

abbrev pub assign : Result Error Account → Sys → Result Error (Unit {0}) × Sys
assign (ok a) s = (ok tt, record s { account = a })
assign (err e) s = (err e, s)
assign (panic m) s = (panic m, s)

-- A change of the account that may fail, and then leaves it as it was.
unfoldable pub change :
    (String → Account → Result Error Account) → String → Exec Sys Error (Unit {0})
change f endpoint_name s = assign (f endpoint_name s.account) s

abbrev location : Option String → Result Error String
location none = err (from_text "no account location found")
location (some url) = ok url

module _ (env : Env) where
  -- acme_proto/http.rs
  unfoldable pub post_jose_no_response :
      (String → String → Result Error String)
      → String
      → Option Types.NamedAcmeResource
      → M (Unit {0})
  post_jose_no_response data_builder url resource =
      post_jose env url resource data_builder >> pure tt

  unfoldable pub new_account :
      (String → String → Result Error String) → M (AccountResponse × String)
  new_account data_builder = do
    url ← gets (λ s. s.endpoint.dir.new_account)
    response ← post_jose env url (some Types.new_account) data_builder
    acc_uri ← map_err generic_error (lift (location (get_header response header_location)))
    acc_resp ← map_err generic_error (lift (json env.json.read_account response))
    pure (acc_resp, acc_uri)

  -- `Account::save`
  unfoldable pub save_account : Exec Sys Error (Unit {0})
  save_account = do a ← gets (λ s. s.account); on_world (save env a.file_manager a)

  -- what `register_account` keeps of the answer
  unfoldable pub registered : AccountResponse → String → Exec Sys Error (Unit {0})
  registered acc_rep account_url = do
    name ← gets (λ s. s.endpoint.name)
    change (λ n. set_account_url n account_url) name
    change (λ n. set_orders_url n (unwrap_or acc_rep.orders "")) name
    change (update_key_hash env) name
    change (update_contacts_hash env) name
    change (update_external_account_hash env) name
    save_account

  unfoldable pub register_account : Exec Sys Error (Unit {0})
  register_account = do
    account ← gets (λ s. s.account)
    endpoint ← gets (λ s. s.endpoint)
    account_struct ← lift (account_request env account endpoint)
    body ← lift (Result.map_err from_json (env.json.write_account account_struct))
    answer ← map_err in_err (
        on_net (
          new_account (λ n url.
            encode_jwk env account.current_key.key account.current_key.signature_algorithm
              (env.as_bytes body) url (some n))))
    registered answer.0 answer.1

  -- `create_account_if_does_not_exist!`: `m` is the request, and `go_on` what follows it.
  unfoldable pub or_register :
      Exec Sys Error (Unit {0}) → Result HttpError (Unit {0}) → Exec Sys Error (Unit {0})
  or_register go_on (ok _) = go_on
  or_register go_on (err (api_error e)) =
      if acme_error_beq (get_acme_type e) account_does_not_exist
      then register_account
      else fail (to_error e)
  or_register go_on (err (generic_error e)) = fail e
  or_register go_on (panic m) = lift (panic m)

  unfoldable pub create_account_if_does_not_exist :
      M (Unit {0}) → Exec Sys Error (Unit {0}) → Exec Sys Error (Unit {0})
  create_account_if_does_not_exist m go_on s = let (r, s') = on_net m s in or_register go_on r s'

  unfoldable pub update_account_contacts : Exec Sys Error (Unit {0})
  update_account_contacts = do
    endpoint_name ← gets (λ s. s.endpoint.name)
    account ← gets (λ s. s.account)
    update ← lift (
        Result.map_err from_json (
          env.json.write_account_update
            (record { contact = map Contact.to_string account.contacts })))
    ep ← lift (get_endpoint endpoint_name account)
    create_account_if_does_not_exist
        (post_jose_no_response (data_builder env account endpoint_name (env.as_bytes update))
          ep.account_url none)
        (change (update_contacts_hash env) endpoint_name >> save_account)

  unfoldable pub update_account_key : Exec Sys Error (Unit {0})
  update_account_key = do
    endpoint_name ← gets (λ s. s.endpoint.name)
    url ← gets (λ s. s.endpoint.dir.key_change)
    account ← gets (λ s. s.account)
    ep ← lift (get_endpoint endpoint_name account)
    old ← lift (get_past_key env ep.key_hash account)
    old_jwk ← lift (jwk_public_key env old.key)
    rollover ← lift (
        Result.map_err from_json
          (env.json.write_rollover (record { account = ep.account_url; old_key = old_jwk })))
    payload ← lift (
        encode_jwk env account.current_key.key account.current_key.signature_algorithm
          (env.as_bytes rollover) url none)
    create_account_if_does_not_exist
        (post_jose_no_response
          (λ n url.
            encode_kid env old.key old.signature_algorithm ep.account_url (env.as_bytes payload) url
              n)
          url none)
        (change (update_key_hash env) endpoint_name >> save_account)

  unfoldable pub external_changed : Option ExternalAccount → AccountEndpoint → Bool
  external_changed none ep = false
  external_changed (some ec) ep = not (hash_external_account env ec == ep.external_account_hash)

  -- the two updates of `synchronize`
  unfoldable pub update_changed : Bool → Bool → Exec Sys Error (Unit {0})
  update_changed contacts_changed key_changed = do
    if contacts_changed then update_account_contacts else pure tt
    if key_changed then update_account_key else pure tt

  unfoldable pub update_account : Account → AccountEndpoint → Exec Sys Error (Unit {0})
  update_account account ep = do
    let ct_hash = hash_contacts env account.contacts
    key_hash ← lift (hash_key env account.current_key)
    update_changed (not (ct_hash == ep.contacts_hash)) (not (key_hash == ep.key_hash))

  unfoldable pub synchronize : Exec Sys Error (Unit {0})
  synchronize = do
    endpoint_name ← gets (λ s. s.endpoint.name)
    account ← gets (λ s. s.account)
    acc_ep ← lift (get_endpoint endpoint_name account)
    if is_empty acc_ep.account_url
        then register_account
        else if external_changed account.external_account acc_ep
        then register_account
        else update_account account acc_ep
