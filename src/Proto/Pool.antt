-- ===== src/Proto/Pool.antt =====
-- What the pooling of acmed/src/acme_proto/http.rs returns, and what it costs at most.
use acmed.Base.{
  ℕ, zero, suc, ◌+◌, ◌*◌, ◌≤◌, String, ◌≡◌, refl, Bool, true, Option, none, some, arith,
  if◌then◌else◌, Bool-cases, inl, inr, Some,
}
use acmed.Base.Result
use acmed.Base.Result.{Result, ok, err, panic}
use acmed.Base.Exec.{pure, lift, map_err}
use acmed.Base.Exec.Keeps.{keeps_rules}
use acmed.Base.Exec.Costs.{Costs, Costs-of_Keeps, Costs-bind, Costs-le}
use acmed.Base.Exec.Ensures.{
  Ensures, Ensures-pure, Ensures-fail, Ensures-lift, Ensures-bind, Ensures-map_err, Ensures-any,
}
use acmed.Error.{from_json}
use acmed.Config.Types.{NamedAcmeResource}
use acmed.World.{slept}
use acmed.World.Env.{Env}
use acmed.Http.Client.{Net, M, HttpError, ValidHttpResponse, generic_error, json}
use acmed.Http.Requests.{post_jose}
use acmed.Http.Answer.{Answers, post-Answers}
use acmed.Http.Frame.{log-Keeps}
use acmed.Http.Budget.{posts, posts_le-Quiet, post_cost}
use acmed.Proto.Http.{Builder, pool_once, pool_result, pool_object}

-- The object is what the newest response holds, and it is one that the caller waits for.
pub record Fetched (env : Env) {A : Type 0} (read : String → Result String A) (done : A → Bool)
    (obj : A) (s : Net) : Type 0 where
  pub response : ValidHttpResponse
  pub answers : Answers env response s
  pub decoded : read response.body ≡ ok obj
  pub accepted : done obj ≡ true

-- the same of an object that any test accepts
abbrev pub Read : (env : Env) {A : Type 0} → (String → Result String A) → A → Net → Type 0
Read env read obj s = Fetched env read (λ _. true) obj s

module _ (env : Env) where
  pub post_jose-Answers :
      (url : String) (resource : Option NamedAcmeResource) (b : Builder)
      → Ensures (λ _. Unit) (post_jose env url resource b) (Answers env)
  unfolding post_jose
  post_jose-Answers url resource b = record {
    at = λ s _ v e. post-Answers env url resource b _ _ s v e;
  }

  json_ok :
      {A : Type 0} (r : Result String A) (obj : A)
      → Result.map_err from_json r ≡ ok obj
      → r ≡ ok obj
  json_ok (ok a) obj h = cc
  json_ok (err e) obj h = cc
  json_ok (panic m) obj h = cc

  pub json-Read :
      {A : Type 0} (read : String → Result String A) (v : ValidHttpResponse)
      → Ensures (Answers env v) (map_err generic_error (lift (json read v))) (Read env read)
  json-Read read v = Ensures-map_err _ _ (
      Ensures-lift _ λ s obj h e. record {
        response = v;
        answers = h;
        decoded = json_ok (read v.body) obj e;
        accepted = refl;
      })

  module _ {A : Type 0} (name url : String) (resource : Option NamedAcmeResource) (b : Builder)
      (read : String → Result String A) (done : A → Bool) where
    abbrev Round : Option A → Net → Type 0
    Round o s = Some (λ obj. Fetched env read done obj s) o

    tested :
        (obj : A)
        → Ensures
            (Read env read obj)
            (pure {E = HttpError} (if done obj then some obj else none))
            Round
    tested obj = elim (Bool-cases (done obj)) [
      | inl yes_ ↦ rw yes_ (
          Ensures-pure _ λ s h. record {
            response = h.response;
            answers = h.answers;
            decoded = h.decoded;
            accepted = yes_;
          })
      | inr no_ ↦ rw no_ (Ensures-pure _ λ s h. tt)
    ]

    pool_once-Round : Ensures (λ _. Unit) (pool_once env name url resource b read done) Round
    unfolding pool_once
    pool_once-Round =
        Ensures-bind (λ _ _. Unit) _ _ (Ensures-any _)
          λ _.
            Ensures-bind (Answers env) _ _ (post_jose-Answers url resource b)
              λ v. Ensures-bind (Read env read) _ _ (json-Read read v) λ obj. tested obj

    pool_result-Fetched :
        {go_on : M A} (o : Option A)
        → Ensures (λ _. Unit) go_on (Fetched env read done)
        → Ensures
            (Round o)
            (pool_result env name url resource b read done go_on o)
            (Fetched env read done)
    pool_result-Fetched none h = record { at = λ s _. h.at s tt }
    pool_result-Fetched (some obj) h = Ensures-pure obj (λ s p. p)

    pub pool_object_ensures :
        (tries : ℕ)
        → Ensures
            (λ _. Unit)
            (pool_object env name url resource b read done tries)
            (Fetched env read done)
    unfolding pool_object
    pool_object_ensures zero = Ensures-fail _ _
    pool_object_ensures (suc tries) =
        Ensures-bind Round _ _ pool_once-Round
          λ o. pool_result-Fetched o (pool_object_ensures tries)

    pool_once_cost : Costs posts 10 (pool_once env name url resource b read done)
    unfolding pool_once post_jose
    pool_once_cost =
        Costs-bind 0 10 _ _ (Costs-of_Keeps _ λ n. log-Keeps (posts_le-Quiet n) env (slept _) refl)
          λ _.
            Costs-bind 10 0 _ _ (post_cost env url resource b _ _)
              λ v. Costs-of_Keeps _ λ n. search keeps_rules depth 8

    pool_result_cost :
        (k : ℕ) {go_on : M A} (o : Option A)
        → Costs posts k go_on
        → Costs posts k (pool_result env name url resource b read done go_on o)
    pool_result_cost k none h = h
    pool_result_cost k (some obj) h =
        Costs-le _ (Costs-of_Keeps _ λ n. search keeps_rules) (omega arith)

    pub pool_object_cost :
        (tries : ℕ) → Costs posts (tries * 10) (pool_object env name url resource b read done tries)
    unfolding pool_object
    pool_object_cost zero = Costs-of_Keeps _ λ n. search keeps_rules
    pool_object_cost (suc tries) =
        Costs-le _
          (Costs-bind 10 (tries * 10) _ _ pool_once_cost
            λ o. pool_result_cost (tries * 10) o (pool_object_cost tries))
          (omega arith)

    -- However the server answers, pooling with a number of tries sends at most ten POST requests for
    -- each try.
    pub posts-pool_object :
        (tries : ℕ) (s : Net)
        → posts (pool_object env name url resource b read done tries s).1 ≤ posts s + tries * 10
    posts-pool_object tries = (pool_object_cost tries).at

    -- A value that pooling returns is one that the caller waits for, read from the body of the newest
    -- response in the log, which had a success status.
    pub pool_object-Fetched :
        (tries : ℕ) (s : Net) (obj : A)
        → (pool_object env name url resource b read done tries s).0 ≡ ok obj
        → Fetched env read done obj (pool_object env name url resource b read done tries s).1
    pool_object-Fetched tries s = (pool_object_ensures tries).at s tt
