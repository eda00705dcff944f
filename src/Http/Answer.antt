-- ===== src/Http/Answer.antt =====
-- What a successful `post` or `get` returns: the last response, which was a success.
use acmed.Base.{
  ℕ, zero, suc, String, ◌≡◌, refl, true, Option, none, some, List, [], ◌∷◌, arith, Some,
}
use acmed.Base.Result.{Result, ok, err, panic}
use acmed.Base.Exec.{◌>>=◌, map_err, lift}
use acmed.Base.Exec.Ensures.{
  Ensures, Ensures-pure, Ensures-fail, Ensures-lift, Ensures-bind, Ensures-map_err, Ensures-any,
}
use acmed.Error.{Error}
use acmed.Config.Types.{NamedAcmeResource}
use acmed.Structs.Problem.{HttpApiError}
use acmed.World.{Event, received, Request, Response}
use acmed.World.Env.{Env}
use acmed.Http.Client.{Net, M, ValidHttpResponse, generic_error, log}
use acmed.Http.Requests
use acmed.Http.Requests.{get, post}

abbrev newest : List Event → Option Event
newest [] = none
newest (e ∷ log) = some e

abbrev Newest : Response → Net → Type 0
Newest r s = newest s.world.log ≡ some (received r)

store_header_world :
    (h : Option (Option String)) (s : Net) → (Requests.store_header h s).1.world ≡ s.world
unfolding Requests.store_header Requests.store_nonce Requests.set_nonce ◌>>=◌
store_header_world none s = refl
store_header_world (some v) s = ground arith

update_nonce-Newest :
    (r : Response)
    → Ensures (Newest r) (map_err generic_error (Requests.update_nonce r)) (λ _ s. Newest r s)
unfolding Requests.update_nonce
update_nonce-Newest r =
    Ensures-map_err generic_error _
      (record { at = λ s h a e. rw (store_header_world (r.header "Replay-Nonce") s) h })

-- The response that a value of `post` or `get` stands for: the newest entry of the log.
pub record Answers (env : Env) (v : ValidHttpResponse) (s : Net) : Type 0 where
  pub response : Response
  pub last : newest s.world.log ≡ some (received response)
  pub is_success : response.is_success ≡ true
  pub headers : v.headers ≡ response.header
  pub body : env.text s.world response ≡ ok v.body

module _ (env : Env) where
  from_response-Answers :
      (r : Response)
      → r.is_success ≡ true
      → Ensures (Newest r) (Requests.from_response env r) (λ v s. Answers env v s)
  unfolding Requests.from_response ◌>>=◌
  from_response-Answers r good = record {
    at = λ s h v e. record {
      response = r;
      last = ground arith;
      is_success = good;
      headers = ground arith;
      body = ground arith;
    };
  }

  send-Newest : (r : Request) → Ensures (λ _. Unit) (Requests.send env r) Newest
  unfolding Requests.send log ◌>>=◌
  send-Newest r = record { at = λ s h a e. ground arith }

  -- The value of a round, if it is the last one.
  abbrev Outcome : Option ValidHttpResponse → Net → Type 0
  Outcome done s = Some (λ v. Answers env v s) done

  recover_from-Outcome :
      (e : HttpApiError) → Ensures (λ _. Unit) (Requests.recover_from env e) Outcome
  unfolding Requests.recover_from log ◌>>=◌
  recover_from-Outcome e = record { at = λ s _ done h. outcome done s h }
    where
      outcome :
          (done : Option ValidHttpResponse) (s : Net)
          → (Requests.recover_from env e s).0 ≡ ok done
          → Outcome done (Requests.recover_from env e s).1
      outcome none s h = tt
      outcome (some v) s h = absurd (ground arith)

  answered-Outcome :
      (r : Response) (status : Result Error (Unit {0}))
      → (status ≡ ok tt → r.is_success ≡ true)
      → Ensures (Newest r) (Requests.answered env r status) Outcome
  unfolding Requests.answered Requests.accepted Requests.refused
  answered-Outcome r (ok _) good =
      Ensures-bind (Answers env) _ _ (Ensures-map_err _ _ (from_response-Answers r (good refl)))
        λ v. Ensures-pure (some v) (λ s h. h)
  answered-Outcome r (err _) good =
      Ensures-bind (λ _ _. Unit) _ _ (Ensures-any _)
        λ v. Ensures-bind (λ _ _. Unit) _ _ (Ensures-any _) λ e. recover_from-Outcome e
  answered-Outcome r (panic m) good = Ensures-lift (panic m) (λ s a h e. cc)

check_status_ok : (r : Response) → Requests.check_status r ≡ ok tt → r.is_success ≡ true
unfolding Requests.check_status
check_status_ok r h = ground arith

module _ (env : Env) where
  -- from the sending on, for any way to go on that keeps the newest entry
  exchange :
      {A : Type 0} (request : Request) (f : Response → M A) (Q : A → Net → Type 0)
      → ((r : Response) → Ensures (Newest r) (f r) Q)
      → Ensures (λ _. Unit) (Requests.send env request >>= f) Q
  exchange request f Q h = Ensures-bind Newest _ _ (send-Newest env request) h

module _ (env : Env) (url : String) (resource : Option NamedAcmeResource)
    (data_builder : String → String → Result Error String) (content_type accept : String) where
  attempt-Outcome :
      Ensures
        (λ _. Unit)
        (Requests.attempt env url resource data_builder content_type accept)
        (Outcome env)
  unfolding Requests.attempt
  attempt-Outcome =
      Ensures-bind (λ _ _. Unit) _ _ (Ensures-any _)
        λ nonce.
          Ensures-bind (λ _ _. Unit) _ _ (Ensures-any _)
            λ body.
              Ensures-bind (λ _ _. Unit) _ _ (Ensures-any _)
                λ _. exchange env _ _ (Outcome env) λ r.
                  Ensures-bind (λ _. Newest r) _ _ (update_nonce-Newest r)
                    λ _. answered-Outcome env r (Requests.check_status r) (check_status_ok r)

  finish-Outcome :
      {m : M ValidHttpResponse} (done : Option ValidHttpResponse)
      → Ensures (λ _. Unit) m (Answers env)
      → Ensures (Outcome env done) (Requests.finish m done) (Answers env)
  finish-Outcome (some v) h = Ensures-pure v (λ s a. a)
  finish-Outcome none h = h

  post_loop_outcome :
      (tries : ℕ)
      → Ensures
          (λ _. Unit)
          (Requests.post_loop env url resource data_builder content_type accept tries)
          (Answers env)
  unfolding Requests.post_loop
  post_loop_outcome zero = Ensures-fail _ _
  post_loop_outcome (suc tries) =
      Ensures-bind (Outcome env) _ _ attempt-Outcome
        λ done. finish-Outcome done (post_loop_outcome tries)

  post_outcome :
      Ensures (λ _. Unit) (post env url resource data_builder content_type accept) (Answers env)
  unfolding post
  post_outcome =
      Ensures-bind (λ _ _. Unit) _ _ (Ensures-any _)
        λ certs.
          Ensures-bind (λ _ _. Unit) _ _ (Ensures-any _)
            λ _.
              Ensures-bind (λ _ _. Unit) _ _ (Ensures-any _)
                λ nonce. Ensures-bind (λ _ _. Unit) _ _ (Ensures-any _) λ _. post_loop_outcome 10

  status_outcome :
      (r : Response)
      → Ensures
          (Newest r)
          (map_err generic_error (lift (Requests.check_status r)))
          (λ _ s. Newest r s × (r.is_success ≡ true))
  status_outcome r = Ensures-map_err _ _ (Ensures-lift _ (λ s _ h e. (h, check_status_ok r e)))

  get_outcome : Ensures (λ _. Unit) (get env url resource) (Answers env)
  unfolding get
  get_outcome =
      Ensures-bind (λ _ _. Unit) _ _ (Ensures-any _)
        λ certs.
          Ensures-bind (λ _ _. Unit) _ _ (Ensures-any _)
            λ _.
              Ensures-bind (λ _ _. Unit) _ _ (Ensures-any _)
                λ _. exchange env _ _ (Answers env) λ r.
                  Ensures-bind (λ _. Newest r) _ _ (update_nonce-Newest r)
                    λ _.
                      Ensures-bind (λ _ s. Newest r s × (r.is_success ≡ true)) _ _
                        (status_outcome r)
                        λ _. record {
                          at = λ s h v e.
                              (Ensures-map_err generic_error _ (from_response-Answers env r h.1)).at
                                s h.0 v e;
                        }

  -- When `post` returns a value, after whatever retries, that value has the headers and the body of
  -- the newest response in the log, and that response had a success status.
  pub post-Answers :
      (s : Net) (v : ValidHttpResponse)
      → (post env url resource data_builder content_type accept s).0 ≡ ok v
      → Answers env v (post env url resource data_builder content_type accept s).1
  post-Answers s v = post_outcome.at s tt v

  -- When `get` returns a value, that value has the headers and the body of the newest response in
  -- the log, and that response had a success status.
  pub get-Answers :
      (s : Net) (v : ValidHttpResponse)
      → (get env url resource s).0 ≡ ok v
      → Answers env v (get env url resource s).1
  get-Answers s v = get_outcome.at s tt v
