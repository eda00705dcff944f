-- ===== src/Http/Requests.antt =====
-- The requests of acmed/src/http.rs: the client, GET, and POST with its retries.
use acmed.Base.{
  ℕ, zero, suc, String, ◌<>◌, not, Option, none, some, List, [], ◌∷◌, if◌then◌else◌, unwrap_or,
  show,
}
use acmed.Base.Result
use acmed.Base.Result.{Result, ok, err, panic}
use acmed.Base.Exec.{pure, fail, lift, gets, modify, ◌>>=◌, ◌>>◌, map_err}
use acmed.Error.{Error, from_text, from_io, from_reqwest, prefix}
use acmed.Config.Types.{NamedAcmeResource}
use acmed.Config.Types
use acmed.Structs.Problem.{HttpApiError, get_acme_type, is_recoverable}
use acmed.World.{Bytes, awaited, slept, sent, received, opened, Method, Request, Response, File}
use acmed.World.Env.{Env, open_read, read}
use acmed.Endpoint.Limits.{RateLimit, matches}
use acmed.Http.Client.{
  M, E, log, ValidHttpResponse, HttpError, api_error, generic_error, header_to_string, json,
  is_nonce, header_nonce, content_type_jose, content_type_json, default_http_fail_nb_retry,
  default_http_fail_wait_sec,
}

-- an answer of the operating system to one call
abbrev pub check_io : Option String → Result Error (Unit {0})
check_io none = ok tt
check_io (some e) = err (from_io e)

abbrev pub content_of : Option File → Result Error Bytes
content_of none = err (from_io "No such file or directory (os error 2)")
content_of (some f) = ok f.content

module _ (env : Env) where
  -- One certificate of `get_client`: opened, read to the end and parsed.
  unfoldable pub add_root_certificate : String → E (Unit {0})
  add_root_certificate crt_file = do
    failed ← gets (λ s. env.io_error s.world (open_read crt_file))
    map_err (prefix crt_file) (lift (check_io failed))
    file ← gets (λ s. s.world.files crt_file)
    buff ← map_err (prefix crt_file) (lift (content_of file))
    log (opened crt_file)
    unread ← gets (λ s. env.io_error s.world (read crt_file))
    lift (check_io unread)
    lift (Result.map_err from_reqwest (env.load_certificate buff))

  unfoldable pub add_root_certificates : List String → E (Unit {0})
  add_root_certificates [] = pure tt
  add_root_certificates (crt_file ∷ more) = do
    add_root_certificate crt_file
    add_root_certificates more

  unfoldable pub get_client : List String → E (Unit {0})
  get_client root_certs = do
    add_root_certificates root_certs
    lift (Result.map_err from_reqwest (env.build_client root_certs))

  -- `RateLimits::block_until_allowed`
  unfoldable pub block_until_allowed :
      List RateLimit → Option NamedAcmeResource → String → M (Unit {0})
  block_until_allowed [] resource path = pure tt
  block_until_allowed (limit ∷ limits) resource path = do
    if matches env.is_match limit resource path then log (awaited limit.limiter) else pure tt
    block_until_allowed limits resource path

  unfoldable pub rate_limit : Option NamedAcmeResource → String → M (Unit {0})
  rate_limit resource path = do
    limits ← gets (λ s. s.endpoint.rl.limits)
    block_until_allowed limits resource path

  unfoldable pub send : Request → M Response
  send request = do
    log (sent request)
    answer ← gets (λ s. env.send s.world request)
    response ← map_err generic_error (lift (Result.map_err from_reqwest answer))
    log (received response)
    pure response

unfoldable pub set_nonce : String → E (Unit {0})
set_nonce nonce = modify (λ s. record s { endpoint = record (s.endpoint) { nonce = some nonce } })

unfoldable pub store_nonce : String → E (Unit {0})
store_nonce nonce =
    if not (is_nonce nonce) then fail (from_text (nonce <> ": invalid nonce.")) else set_nonce nonce

unfoldable pub store_header : Option (Option String) → E (Unit {0})
store_header none = pure tt
store_header (some value) = lift (header_to_string value) >>= store_nonce

unfoldable pub update_nonce : Response → E (Unit {0})
update_nonce response = store_header (response.header header_nonce)

unfoldable pub check_status : Response → Result Error (Unit {0})
check_status response =
    if not response.is_success
    then err (from_text ("HTTP error: " <> (show response.code <> (": " <> response.status_text))))
    else ok tt

-- the end of a round; `go_on` is the rest of the loop
abbrev pub finish : M ValidHttpResponse → Option ValidHttpResponse → M ValidHttpResponse
finish go_on (some resp) = pure resp
finish go_on none = go_on

module _ (env : Env) where
  -- `ValidHttpResponse::from_response`
  unfoldable pub from_response : Response → E ValidHttpResponse
  from_response response = do
    body ← gets (λ s. env.text s.world response)
    text ← lift (Result.map_err from_reqwest body)
    pure (record { headers = response.header; body = text })

  unfoldable pub get : String → Option NamedAcmeResource → M ValidHttpResponse
  get url resource = do
    certs ← gets (λ s. s.endpoint.root_certificates)
    map_err generic_error (get_client env certs)
    rate_limit env resource url
    response ← send env (record {
      method = Method.get;
      url = url;
      accept = content_type_json;
      content_type = none;
      body = "";
    })
    map_err generic_error (update_nonce response)
    map_err generic_error (lift (check_status response))
    map_err generic_error (from_response response)

  unfoldable pub new_nonce : M (Unit {0})
  new_nonce = do url ← gets (λ s. s.endpoint.dir.new_nonce); get url (some Types.new_nonce); pure tt

  -- `let _ = …`: the error is dropped, and what was done stays done.
  abbrev pub dropped : Result HttpError (Unit {0}) → Result HttpError (Unit {0})
  dropped (ok _) = ok tt
  dropped (err _) = ok tt
  dropped (panic m) = panic m

  unfoldable pub ensure_nonce : Option String → M (Unit {0})
  ensure_nonce (some _) s = (ok tt, s)
  ensure_nonce none s = let (r, s') = new_nonce s in (dropped r, s')

  unfoldable pub recover_from : HttpApiError → M (Option ValidHttpResponse)
  recover_from api_err =
      if is_recoverable (get_acme_type api_err)
      then log (slept default_http_fail_wait_sec) >> pure none
      else fail (api_error api_err)

  -- A response with a failure status: only a recoverable problem goes on to the next round.
  unfoldable pub refused : Response → M (Option ValidHttpResponse)
  refused response = do
    resp ← map_err generic_error (from_response response)
    api_err ← map_err generic_error (lift (json env.json.read_problem resp))
    recover_from api_err

  unfoldable pub accepted : Response → M (Option ValidHttpResponse)
  accepted response = do resp ← map_err generic_error (from_response response); pure (some resp)

  unfoldable pub answered : Response → Result Error (Unit {0}) → M (Option ValidHttpResponse)
  answered response (ok _) = accepted response
  answered response (err _) = refused response
  answered response (panic m) = lift (panic m)

  module _ (url : String) (resource : Option NamedAcmeResource)
      (data_builder : String → String → Result Error String) (content_type accept : String) where
    -- One round of the loop of `post`: `none` asks for another.
    unfoldable pub attempt : M (Option ValidHttpResponse)
    attempt = do
      nonce ← gets (λ s. unwrap_or s.endpoint.nonce "")
      body ← map_err generic_error (lift (data_builder nonce url))
      rate_limit env resource url
      response ← send env (record {
        method = Method.post;
        url = url;
        accept = accept;
        content_type = some content_type;
        body = body;
      })
      map_err generic_error (update_nonce response)
      answered response (check_status response)

    unfoldable pub post_loop : ℕ → M ValidHttpResponse
    post_loop zero = fail (generic_error (from_text "too much errors, will not retry"))
    post_loop (suc tries) = attempt >>= finish (post_loop tries)

    unfoldable pub post : M ValidHttpResponse
    post = do
      certs ← gets (λ s. s.endpoint.root_certificates)
      map_err generic_error (get_client env certs)
      nonce ← gets (λ s. s.endpoint.nonce)
      ensure_nonce nonce
      post_loop default_http_fail_nb_retry

  unfoldable pub post_jose :
      String
      → Option NamedAcmeResource
      → (String → String → Result Error String)
      → M ValidHttpResponse
  post_jose url resource data_builder =
      post url resource data_builder content_type_jose content_type_json
