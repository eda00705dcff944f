-- ===== src/Proto/Wide.antt =====
-- What the requests of acmed/src/acme_proto/http.rs can do to an endpoint and to the log: they log,
-- store valid nonces and refresh the directory. Every predicate that survives these is kept,
-- however a request ends.
use acmed.Base.{ℕ, zero, suc, String, refl, Bool, Option, none, some}
use acmed.Base.Result.{Result}
use acmed.Base.Exec.{modify}
use acmed.Base.Exec.Keeps.{Keeps, keeps_rules, Keeps-bind, Keeps-fail, Keeps-pure}
use acmed.Error.{Error}
use acmed.Config.Types.{NamedAcmeResource}
use acmed.Structs.Directory.{Directory}
use acmed.Structs.Authorization.{Authorization}
use acmed.Structs.Order.{Order}
use acmed.World.Env.{Env}
use acmed.Http.Client.{Net, M, HttpError}
use acmed.Http.Requests.{post_jose}
use acmed.Http.Frame.{Stable, get-Keeps, post-Keeps, log-Keeps}
use acmed.Account.Sync
use acmed.Account.Sync.{Sys, on_net, on_world, change}
use acmed.Proto.Http
use acmed.World.{slept}
use acmed.Http.Client.{log}
use acmed.Proto.Http.{Builder}

pub record Wide (Q : Net → Type 0) : Type 0 where
  pub stable : Stable Q
  pub refreshed :
      (s : Net) (d : Directory) → Q s → Q (record s { endpoint = record (s.endpoint) { dir = d } })

module _ (Q : Net → Type 0) (wide : Wide Q) (env : Env) where
  stable : Stable Q
  stable = wide.stable

  post_jose-Keeps :
      (url : String) (resource : Option NamedAcmeResource)
      (b : String → String → Result Error String)
      → Keeps Q (post_jose env url resource b)
  unfolding post_jose
  post_jose-Keeps url resource b = post-Keeps stable env url resource b _ _

  pub no_response-Keeps :
      (b : String → String → Result Error String) (url : String)
      (resource : Option NamedAcmeResource)
      → Keeps Q (Sync.post_jose_no_response env b url resource)
  unfolding Sync.post_jose_no_response
  no_response-Keeps b url resource = search (keeps_rules, post_jose-Keeps)

  pub new_account-Keeps :
      (b : String → String → Result Error String) → Keeps Q (Sync.new_account env b)
  unfolding Sync.new_account
  new_account-Keeps b = search (keeps_rules, post_jose-Keeps) depth 10

  set_directory-Keeps : (d : Directory) → Keeps Q (Http.set_directory d)
  unfolding Http.set_directory modify
  set_directory-Keeps d = record { at = λ s h. wide.refreshed s d h }

  pub refresh_directory-Keeps : Keeps Q (Http.refresh_directory env)
  unfolding Http.refresh_directory
  refresh_directory-Keeps =
      search (keeps_rules, get-Keeps stable.quiet env, set_directory-Keeps) depth 10

  module _ {A : Type 0} (name url : String) (resource : Option NamedAcmeResource) (b : Builder)
      (read : String → Result String A) (done : A → Bool) where
    slept-Keeps : (n : ℕ) → Keeps Q (log {X = HttpError} (slept n))
    slept-Keeps n = log-Keeps stable.quiet env (slept n) refl

    pool_once-Keeps : Keeps Q (Http.pool_once env name url resource b read done)
    unfolding Http.pool_once
    pool_once-Keeps = search (keeps_rules, slept-Keeps, post_jose-Keeps) depth 10

    pool_result-Keeps :
        {go_on : M A} (o : Option A)
        → Keeps Q go_on
        → Keeps Q (Http.pool_result env name url resource b read done go_on o)
    pool_result-Keeps none k = k
    pool_result-Keeps (some obj) k = Keeps-pure obj

    pool_object-Keeps :
        (tries : ℕ) → Keeps Q (Http.pool_object env name url resource b read done tries)
    unfolding Http.pool_object
    pool_object-Keeps zero = Keeps-fail _
    pool_object-Keeps (suc tries) =
        Keeps-bind _ _ pool_once-Keeps (λ o. pool_result-Keeps o (pool_object-Keeps tries))

  pub new_order-Keeps : (b : Builder) → Keeps Q (Http.new_order env b)
  unfolding Http.new_order
  new_order-Keeps b = search (keeps_rules, post_jose-Keeps) depth 10

  pub get_authorization-Keeps :
      (b : Builder) (url : String) → Keeps Q (Http.get_authorization env b url)
  unfolding Http.get_authorization
  get_authorization-Keeps b url = search (keeps_rules, post_jose-Keeps) depth 10

  pub pool_authorization-Keeps :
      (b : Builder) (done : Authorization → Bool) (url : String)
      → Keeps Q (Http.pool_authorization env b done url)
  unfolding Http.pool_authorization
  pool_authorization-Keeps b done url = pool_object-Keeps _ _ _ _ _ _ 20

  pub pool_order-Keeps :
      (b : Builder) (done : Order → Bool) (url : String) → Keeps Q (Http.pool_order env b done url)
  unfolding Http.pool_order
  pool_order-Keeps b done url = pool_object-Keeps _ _ _ _ _ _ 20

  pub finalize_order-Keeps : (b : Builder) (url : String) → Keeps Q (Http.finalize_order env b url)
  unfolding Http.finalize_order
  finalize_order-Keeps b url = search (keeps_rules, post_jose-Keeps) depth 10

  pub get_certificate-Keeps :
      (b : Builder) (url : String) → Keeps Q (Http.get_certificate env b url)
  unfolding Http.get_certificate
  get_certificate-Keeps b url = search (keeps_rules, post-Keeps stable env) depth 10
