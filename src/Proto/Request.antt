-- ===== src/Proto/Request.antt =====
-- `request_certificate` of acmed/src/acme_proto.rs.
use acmed.Base.{String, Bool, not, Option, none, some, List, [], map, keep}
use acmed.Base.Result.{Result, ok, err}
use acmed.Base.Exec.{Exec, pure, lift, gets, ◌>>=◌, ◌>>◌}
use acmed.Error.{Error, from_text}
use acmed.Crypto.X509.{new_csr, to_pem, to_der_base64}
use acmed.Structs.Identifier.{Identifier, is_dns}
use acmed.Structs.Order
use acmed.Structs.Order.{Order}
use acmed.World.Env.{Env, KeyPair}
use acmed.Storage.Files.{write_certificate}
use acmed.Account.Sync.{Sys, on_world, synchronize}
use acmed.Certificate.{Certificate}
use acmed.Proto.Http.{refresh_directory, pool_order, finalize_order, get_certificate}
use acmed.Proto.Keys.{get_key_pair}
use acmed.Proto.Order.{on_endpoint, builder, create_order}
use acmed.Proto.Authorize.{authorize_all}

abbrev values_of : (Identifier → Bool) → List Identifier → List String
values_of test ids = map (λ (id : Identifier). id.value) (keep test ids)

abbrev pub order_is_ready : Order → Bool
order_is_ready o = Order.is_ready o.status

abbrev pub order_is_valid : Order → Bool
order_is_valid o = Order.is_valid o.status

abbrev download_url : Option String → Result Error String
download_url none = err (from_text "no certificate available for download")
download_url (some url) = ok url

module _ (env : Env) (cert : Certificate) where
  -- the request that the order is finalized with
  unfoldable pub make_csr : KeyPair → Exec Sys Error String
  make_csr key_pair = do
    made ← gets (λ s.
        new_csr env s.world key_pair cert.csr_digest
          (values_of (λ id. is_dns id.id_type) cert.identifiers)
          (values_of (λ id. not (is_dns id.id_type)) cert.identifiers) cert.subject_attributes)
    csr ← lift made
    lift (to_pem env csr)
    der ← lift (to_der_base64 env csr)
    pure (env.json.write_csr der)

  module _ (endpoint_name : String) where
    unfoldable pub finalize : Order → Exec Sys Error (Unit {0})
    finalize order = do
      key_pair ← on_world (get_key_pair env cert)
      csr ← make_csr key_pair
      make ← builder env endpoint_name (env.as_bytes csr)
      on_endpoint (finalize_order env make order.finalize)
      pure tt

    unfoldable pub wait_for : (Order → Bool) → String → Exec Sys Error Order
    wait_for done order_url = do
      make ← builder env endpoint_name []
      on_endpoint (pool_order env make done order_url)

    unfoldable pub download : Order → Exec Sys Error String
    download order = do
      crt_url ← lift (download_url order.certificate)
      make ← builder env endpoint_name []
      on_endpoint (get_certificate env make crt_url)

    -- from the directory to the downloaded certificate
    unfoldable pub obtain : Exec Sys Error String
    obtain = do
      on_endpoint (refresh_directory env)
      synchronize env
      placed ← create_order env cert endpoint_name
      authorize_all env cert endpoint_name placed.0.authorizations []
      ready ← wait_for order_is_ready placed.1
      finalize ready
      order ← wait_for order_is_valid placed.1
      download order

  unfoldable pub request_certificate : Exec Sys Error (Unit {0})
  request_certificate = do
    endpoint_name ← gets (λ s. s.endpoint.name)
    crt ← obtain endpoint_name
    on_world (write_certificate env cert.file_manager (env.as_bytes crt))
