-- ===== src/Account/Messages.antt =====
-- What an account puts into its messages: acmed/src/acme_proto/structs/account.rs and the macro
-- `set_data_builder_sync!` of acmed/src/acme_proto.rs.
use acmed.Base.{String, false, Option, none, some, map}
use acmed.Base.Result
use acmed.Base.Result.{Result, ok, ◌>>=◌}
use acmed.Error.{Error, from_json}
use acmed.Structs.Account.{Account as AcmeAccount}
use acmed.World.{Bytes}
use acmed.World.Env.{Env}
use acmed.Endpoint.{Endpoint}
use acmed.Crypto.Keys.Jwk.{jwk_public_key}
use acmed.Jws.{encode_kid, encode_kid_mac}
use acmed.Account.Contact
use acmed.Account.State.{Account, ExternalAccount, get_endpoint}

module _ (env : Env) where
  external_binding : Option ExternalAccount → Account → Endpoint → Result Error (Option String)
  external_binding none account endpoint = ok none
  external_binding (some ec) account endpoint = do
    jwk ← jwk_public_key env account.current_key.key
    d ←
        encode_kid_mac env ec.key ec.signature_algorithm ec.identifier (env.as_bytes jwk)
          endpoint.dir.new_account
    value ← Result.map_err from_json (env.json.read_value d)
    ok (some value)

  -- `structs::Account::new`
  unfoldable pub account_request : Account → Endpoint → Result Error AcmeAccount
  unfolding external_binding
  account_request account endpoint = do
    binding ← external_binding account.external_account account endpoint
    ok (record {
      contact = map Contact.to_string account.contacts;
      terms_of_service_agreed = endpoint.tos_agreed;
      only_return_existing = false;
      external_account_binding = binding;
    })

  -- `set_data_builder_sync!`
  unfoldable pub data_builder : Account → String → Bytes → String → String → Result Error String
  data_builder account endpoint_name d n url = do
    ep ← get_endpoint endpoint_name account
    encode_kid env account.current_key.key account.current_key.signature_algorithm ep.account_url d
        url n
