-- ===== src/Tests/Renewal.antt =====
-- Runs of the theorems on requests of a certificate, on what they cost and on what they leave.
use acmed.Base.{Bool, ◌≡◌, ◌≤◌, ◌+◌, ◌*◌, String, Option, List, [], ◌∷◌, refl, none}
use acmed.Base.Result.{Result, ok}
use acmed.Error.{Error}
use acmed.Storage.Paths.{FullPath}
use acmed.Account.Sync
use acmed.Account.Known.{Known}
use acmed.Account.InSync.{synchronize-Known}
use acmed.Account.Idle.{synchronize_idle}
use acmed.Http.Budget.{posts}
use acmed.Proto.Http.{pool_object}
use acmed.Proto.Request
use acmed.Proto.Request.{request_certificate, order_is_ready}
use acmed.Proto.Untouched.{files-obtain}
use acmed.Proto.Nonce.{IsSame, request_certificate-IsSame}
use acmed.Proto.Pool.{Fetched, pool_object-Fetched, posts-pool_object}
use acmed.Proto.Order.{order_loop, create_order}
use acmed.Proto.Fuel.{order_loop-create_order}
use acmed.Tests.Outside.{net}
use acmed.Tests.Authority.{issuing, cert, sys, order}

abbrev full : FullPath
full = record {
  directory = "/crt";
  name = "example.org.crt.pem";
  path = "/crt/example.org.crt.pem";
}

abbrev account_file : FullPath
account_file = record {
  directory = "/acc";
  name = "b64.account.bin";
  path = "/acc/b64.account.bin";
}

abbrev key_file : FullPath
key_file = record {
  directory = "/crt";
  name = "example.org.pk.pem";
  path = "/crt/example.org.pk.pem";
}

files-obtain_example :
    (Request.obtain issuing cert "ca" sys).1.world.files "/crt/example.org.crt.pem"
    ≡ sys.world.files "/crt/example.org.crt.pem"
unfolding acmed.Hooks.render_template acmed.Storage.Paths.to_string acmed.Storage.Paths.push
    acmed.Storage.Paths.base_path acmed.Storage.Paths.file_name
    acmed.Storage.Paths.get_file_full_path
files-obtain_example =
    files-obtain issuing cert "ca" sys "/crt/example.org.crt.pem" account_file key_file refl refl
      refl refl refl (λ e. cc e) (λ e. cc e)

request_certificate-IsSame_example :
    IsSame sys.endpoint (request_certificate issuing cert sys).1.endpoint
unfolding acmed.Http.Client.is_nonce
request_certificate-IsSame_example = request_certificate-IsSame issuing cert sys refl

synchronize-Known_example :
    Known issuing Bool.true Bool.true Bool.true "ca" (Sync.synchronize issuing sys).1.account
unfolding acmed.Base.Dict.get acmed.Base.trim_wildcards acmed.Base.Exec.◌>>=◌
    acmed.Account.Sync.on_net acmed.Account.Sync.on_world acmed.Account.Sync.post_jose_no_response
    acmed.Account.Sync.external_changed acmed.Account.Sync.update_changed
    acmed.Account.Sync.update_account acmed.Account.Sync.synchronize
    acmed.Crypto.Keys.Generate.gen_keypair acmed.Crypto.Keys.Generate.generation
    acmed.Account.State.get_endpoint acmed.Account.State.hash_contacts acmed.Account.State.hash_key
    acmed.Account.Messages.data_builder acmed.Crypto.Keys.public_key_to_pem
synchronize-Known_example = synchronize-Known issuing sys refl

abbrev message : String → String → Result Error String
message nonce url = ok nonce

pool_object-Fetched_example :
    Fetched issuing issuing.json.read_order order_is_ready
      (order "pending")
      (pool_object issuing "order" "https://ca.example/order" none message issuing.json.read_order
        order_is_ready 20 net).1
unfolding acmed.Crypto.Keys.sign acmed.Jws.get_jws_data acmed.Jws.encode_kid acmed.Base.Dict.get
    acmed.Base.trim_wildcards acmed.Base.Exec.◌>>=◌ acmed.Proto.Http.set_directory
    acmed.Proto.Http.refresh_directory acmed.Proto.Http.pool_once acmed.Proto.Http.pool_object
    acmed.Proto.Http.new_order acmed.Proto.Http.get_authorization
    acmed.Proto.Http.pool_authorization acmed.Proto.Http.pool_order acmed.Proto.Http.finalize_order
    acmed.Proto.Http.get_certificate acmed.Http.Requests.add_root_certificates
    acmed.Http.Requests.get_client acmed.Http.Requests.block_until_allowed
    acmed.Http.Requests.rate_limit acmed.Http.Requests.send acmed.Http.Requests.set_nonce
    acmed.Http.Requests.store_nonce acmed.Http.Requests.store_header
    acmed.Http.Requests.update_nonce acmed.Http.Requests.check_status
    acmed.Http.Requests.from_response acmed.Http.Requests.get acmed.Http.Requests.ensure_nonce
    acmed.Http.Requests.accepted acmed.Http.Requests.answered acmed.Http.Requests.attempt
    acmed.Http.Requests.post_loop acmed.Http.Requests.post acmed.Http.Requests.post_jose
    acmed.Http.Client.log acmed.Http.Client.get_header acmed.Http.Client.is_nonce
    acmed.Crypto.X509.new_csr acmed.Crypto.X509.to_der_base64 acmed.Crypto.X509.to_pem
    acmed.Crypto.Algorithm.algorithm_beq acmed.Crypto.KeyType.get_default_signature_alg
    acmed.Crypto.KeyType.check_alg_compatibility
pool_object-Fetched_example =
    pool_object-Fetched issuing "order" "https://ca.example/order" none message
      issuing.json.read_order order_is_ready 20 net (order "pending") refl

posts-pool_object_example :
    posts
      (pool_object issuing "order" "https://ca.example/order" none message issuing.json.read_order
        order_is_ready 20 net).1
    ≤ posts net + 20 * 10
posts-pool_object_example =
    posts-pool_object issuing "order" "https://ca.example/order" none message
      issuing.json.read_order order_is_ready 20 net

order_loop-create_order_example :
    order_loop issuing cert "ca" 7 Bool.false ≡ create_order issuing cert "ca"
order_loop-create_order_example = order_loop-create_order issuing cert "ca" 5

synchronize_idle_example : Sync.synchronize issuing sys ≡ (ok tt, sys)
unfolding acmed.Account.State.hash_key acmed.Account.State.hash_contacts acmed.Base.Dict.get
    acmed.Crypto.Keys.public_key_to_pem
synchronize_idle_example =
    synchronize_idle issuing sys
      (record {
        entry = record {
          creation_date = 0;
          account_url = "https://ca.example/me";
          orders_url = "";
          key_hash = 1 ∷ [];
          contacts_hash = 7 ∷ [];
          external_account_hash = [];
        };
        found = refl;
        key = λ _. refl;
        contacts = λ _. refl;
        external = λ _. tt;
      })
      refl
