-- ===== src/Proto/Http.antt =====
-- acmed/src/acme_proto/http.rs, with the two functions that stand in `Account.Sync`.
use acmed.Base.{ℕ, zero, suc, String, ◌<>◌, Bool, Option, none, some, if◌then◌else◌}
use acmed.Base.Result.{Result, ok, err}
use acmed.Base.Exec.{pure, fail, lift, gets, modify, ◌>>=◌, ◌>>◌, map_err}
use acmed.Error.{Error, from_text}
use acmed.Config.Types
use acmed.Config.Types.{NamedAcmeResource}
use acmed.Structs.Directory.{Directory}
use acmed.Structs.Authorization.{Authorization}
use acmed.Structs.Order.{Order}
use acmed.World.{slept}
use acmed.World.Env.{Env}
use acmed.Http.Client.{
  M, log, generic_error, json, get_header, header_location, content_type_jose, content_type_pem,
}
use acmed.Http.Requests.{get, post, post_jose}

-- main.rs
abbrev pub default_pool_nb_tries : ℕ
default_pool_nb_tries = 20

abbrev pub default_pool_wait_sec : ℕ
default_pool_wait_sec = 5

abbrev pub Builder : Type 0
Builder = String → String → Result Error String

abbrev location : Option String → Result Error String
location none = err (from_text "no account location found")
location (some url) = ok url

unfoldable pub set_directory : Directory → M (Unit {0})
set_directory dir = modify (λ s. record s { endpoint = record (s.endpoint) { dir = dir } })

module _ (env : Env) where
  unfoldable pub refresh_directory : M (Unit {0})
  refresh_directory = do
    url ← gets (λ s. s.endpoint.url)
    response ← get env url (some Types.directory)
    dir ← map_err generic_error (lift (json env.json.read_directory response))
    set_directory dir

  -- The macro `pool_object!`: the first object that `done` accepts ends it.
  module _ {A : Type 0} (obj_name url : String) (resource : Option NamedAcmeResource)
      (data_builder : Builder) (read : String → Result String A) (done : A → Bool) where
    -- one round: `none` asks for another
    unfoldable pub pool_once : M (Option A)
    pool_once = do
      log (slept default_pool_wait_sec)
      response ← post_jose env url resource data_builder
      obj ← map_err generic_error (lift (json read response))
      pure (if done obj then some obj else none)

    abbrev pub pool_result : M A → Option A → M A
    pool_result go_on none = go_on
    pool_result go_on (some obj) = pure obj

    unfoldable pub pool_object : ℕ → M A
    pool_object zero = fail (generic_error (from_text (obj_name <> (" pooling failed on " <> url))))
    pool_object (suc tries) = pool_once >>= pool_result (pool_object tries)

  unfoldable pub new_order : Builder → M (Order × String)
  new_order data_builder = do
    url ← gets (λ s. s.endpoint.dir.new_order)
    response ← post_jose env url (some Types.new_order) data_builder
    order_uri ← map_err generic_error (lift (location (get_header response header_location)))
    order_resp ← map_err generic_error (lift (json env.json.read_order response))
    pure (order_resp, order_uri)

  unfoldable pub get_authorization : Builder → String → M Authorization
  get_authorization data_builder url = do
    response ← post_jose env url none data_builder
    map_err generic_error (lift (json env.json.read_authorization response))

  unfoldable pub pool_authorization : Builder → (Authorization → Bool) → String → M Authorization
  pool_authorization data_builder break_fn url =
      pool_object "authorization" url none data_builder env.json.read_authorization break_fn
        default_pool_nb_tries

  unfoldable pub pool_order : Builder → (Order → Bool) → String → M Order
  pool_order data_builder break_fn url =
      pool_object "order" url none data_builder env.json.read_order break_fn default_pool_nb_tries

  unfoldable pub finalize_order : Builder → String → M Order
  finalize_order data_builder url = do
    response ← post_jose env url none data_builder
    map_err generic_error (lift (json env.json.read_order response))

  unfoldable pub get_certificate : Builder → String → M String
  get_certificate data_builder url = do
    response ← post env url none data_builder content_type_jose content_type_pem
    pure response.body
