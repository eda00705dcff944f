-- ===== src/Http/Frame.antt =====
-- What a request can do to the state: it logs, and it stores valid nonces. `Stable` names the
-- predicates that survive both, and every request keeps them, however it ends.
use acmed.Base.{
  ℕ, zero, suc, String, ◌≡◌, Bool, true, false, Option, none, some, List, [], ◌∷◌, arith,
}
use acmed.Base.Result.{Result, ok, err, panic}
use acmed.Base.Exec.{lift, ◌>>=◌}
use acmed.Base.Exec.Keeps.{Keeps, keeps_rules, Keeps-bind, Keeps-pure, Keeps-fail}
use acmed.Error.{Error}
use acmed.Config.Types.{NamedAcmeResource}
use acmed.Structs.Problem.{HttpApiError}
use acmed.World.{Response, Request, Event, sent, Method, record_event}
use acmed.World.Env.{Env}
use acmed.Endpoint.Limits.{RateLimit}
use acmed.Http.Client.{Net, M, log, ValidHttpResponse, HttpError, is_nonce}
use acmed.Http.Requests

-- the sending of a POST request
abbrev is_post : Method → Bool
is_post Method.post = true
is_post Method.get = false

abbrev pub is_posted : Event → Bool
is_posted (sent request) = is_post request.method
is_posted _ = false

pub record Quiet (P : Net → Type 0) : Type 0 where
  pub logged :
      (s : Net) (e : Event)
      → is_posted e ≡ false
      → P s
      → P (record s { world = record_event e s.world })
  pub renewed :
      (s : Net) (n : String)
      → is_nonce n ≡ true
      → P s
      → P (record s { endpoint = record (s.endpoint) { nonce = some n } })

pub record Stable (P : Net → Type 0) : Type 0 where
  pub quiet : Quiet P
  pub posted :
      (s : Net) (r : Request) → P s → P (record s { world = record_event (sent r) s.world })

module _ {P : Net → Type 0} (quiet : Quiet P) (env : Env) where
  pub log-Keeps : {X : Type 0} (e : Event) → is_posted e ≡ false → Keeps P (log {X = X} e)
  unfolding log
  log-Keeps e h = record { at = λ s. quiet.logged s e h }

  store_nonce-Keeps : (nonce : String) → Keeps P (Requests.store_nonce nonce)
  unfolding Requests.store_nonce Requests.set_nonce ◌>>=◌
  store_nonce-Keeps nonce = record { at = λ s h. ground (arith, quiet.renewed s nonce) }

  store_value-Keeps : (r : Result Error String) → Keeps P (lift r >>= Requests.store_nonce)
  store_value-Keeps r = search (keeps_rules, store_nonce-Keeps)

  store_header-Keeps : (h : Option (Option String)) → Keeps P (Requests.store_header h)
  unfolding Requests.store_header
  store_header-Keeps none = Keeps-pure tt
  store_header-Keeps (some v) = store_value-Keeps _

  pub update_nonce-Keeps : (r : Response) → Keeps P (Requests.update_nonce r)
  unfolding Requests.update_nonce
  update_nonce-Keeps r = store_header-Keeps (r.header "Replay-Nonce")

  add_root_certificate-Keeps : (f : String) → Keeps P (Requests.add_root_certificate env f)
  unfolding Requests.add_root_certificate
  add_root_certificate-Keeps f = search (keeps_rules, log-Keeps) depth 12

  add_root_certificates-Keeps : (fs : List String) → Keeps P (Requests.add_root_certificates env fs)
  unfolding Requests.add_root_certificates
  add_root_certificates-Keeps [] = Keeps-pure tt
  add_root_certificates-Keeps (f ∷ fs) =
      Keeps-bind _ _ (add_root_certificate-Keeps f) (λ _. add_root_certificates-Keeps fs)

  pub get_client-Keeps : (fs : List String) → Keeps P (Requests.get_client env fs)
  unfolding Requests.get_client
  get_client-Keeps fs = search (keeps_rules, add_root_certificates-Keeps)

  block_until_allowed-Keeps :
      (limits : List RateLimit) (resource : Option NamedAcmeResource) (path : String)
      → Keeps P (Requests.block_until_allowed env limits resource path)
  unfolding Requests.block_until_allowed
  block_until_allowed-Keeps [] resource path = Keeps-pure tt
  block_until_allowed-Keeps (l ∷ limits) resource path =
      Keeps-bind _ _ (search (keeps_rules, log-Keeps))
        (λ _. block_until_allowed-Keeps limits resource path)

  pub rate_limit-Keeps :
      (resource : Option NamedAcmeResource) (path : String)
      → Keeps P (Requests.rate_limit env resource path)
  unfolding Requests.rate_limit
  rate_limit-Keeps resource path = search (keeps_rules, block_until_allowed-Keeps)

  pub send-Keeps : (r : Request) → is_posted (sent r) ≡ false → Keeps P (Requests.send env r)
  unfolding Requests.send
  send-Keeps r h = search (keeps_rules, log-Keeps) depth 8

  pub from_response-Keeps : (r : Response) → Keeps P (Requests.from_response env r)
  unfolding Requests.from_response
  from_response-Keeps r = search keeps_rules depth 8

  -- A GET keeps every stable predicate.
  pub get-Keeps :
      (url : String) (resource : Option NamedAcmeResource) → Keeps P (Requests.get env url resource)
  unfolding Requests.get
  get-Keeps url resource =
      search
        (
          keeps_rules, update_nonce-Keeps, get_client-Keeps, rate_limit-Keeps, send-Keeps,
          from_response-Keeps,
        )
        depth 14

  new_nonce-Keeps : Keeps P (Requests.new_nonce env)
  unfolding Requests.new_nonce
  new_nonce-Keeps = search (keeps_rules, get-Keeps) depth 8

  pub ensure_nonce-Keeps : (nonce : Option String) → Keeps P (Requests.ensure_nonce env nonce)
  unfolding Requests.ensure_nonce
  ensure_nonce-Keeps none = record { at = new_nonce-Keeps.at }
  ensure_nonce-Keeps (some n) = record { at = λ s h. h }

  recover_from-Keeps : (e : HttpApiError) → Keeps P (Requests.recover_from env e)
  unfolding Requests.recover_from
  recover_from-Keeps e = search (keeps_rules, log-Keeps) depth 8

  pub answered-Keeps :
      (r : Response) (status : Result Error (Unit {0})) → Keeps P (Requests.answered env r status)
  unfolding Requests.answered Requests.accepted Requests.refused
  answered-Keeps r (ok _) = search (keeps_rules, from_response-Keeps) depth 8
  answered-Keeps r (err _) = search (keeps_rules, from_response-Keeps, recover_from-Keeps) depth 8
  answered-Keeps r (panic m) = search keeps_rules

finish-Keeps :
    {P : Net → Type 0} {m : M ValidHttpResponse} (done : Option ValidHttpResponse)
    → Keeps P m
    → Keeps P (Requests.finish m done)
finish-Keeps (some v) h = Keeps-pure v
finish-Keeps none h = h

module _ {P : Net → Type 0} (stable : Stable P) where
  sent-Keeps : (r : Request) → Keeps P (log {X = HttpError} (sent r))
  unfolding log
  sent-Keeps r = record { at = λ s. stable.posted s r }

module _ {P : Net → Type 0} (stable : Stable P) (env : Env) (url : String)
    (resource : Option NamedAcmeResource) (data_builder : String → String → Result Error String)
    (content_type accept : String) where
  post_send-Keeps : (r : Request) → Keeps P (Requests.send env r)
  unfolding Requests.send
  post_send-Keeps r = search (keeps_rules, sent-Keeps stable, log-Keeps stable.quiet env) depth 8

  attempt-Keeps : Keeps P (Requests.attempt env url resource data_builder content_type accept)
  unfolding Requests.attempt
  attempt-Keeps =
      search
        (
          keeps_rules,
          rate_limit-Keeps stable.quiet env,
          post_send-Keeps,
          update_nonce-Keeps stable.quiet env,
          answered-Keeps stable.quiet env,
        )
        depth 14

  post_loop-Keeps :
      (tries : ℕ)
      → Keeps P (Requests.post_loop env url resource data_builder content_type accept tries)
  unfolding Requests.post_loop
  post_loop-Keeps zero = Keeps-fail _
  post_loop-Keeps (suc tries) =
      Keeps-bind _ _ attempt-Keeps (λ done. finish-Keeps done (post_loop-Keeps tries))

  -- A POST with its retries keeps every stable predicate.
  pub post-Keeps : Keeps P (Requests.post env url resource data_builder content_type accept)
  unfolding Requests.post
  post-Keeps =
      search
        (
          keeps_rules,
          get_client-Keeps stable.quiet env,
          ensure_nonce-Keeps stable.quiet env,
          post_loop-Keeps,
        )
        depth 10
