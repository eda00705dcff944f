-- ===== src/Http/Budget.antt =====
-- How many POST requests one call of `post` can send.
use acmed.Base.{
  ℕ, zero, suc, ◌+◌, ◌≤◌, String, Option, none, some, List, [], ◌∷◌, arith, if◌then◌else◌,
}
use acmed.Base.Result.{Result}
use acmed.Base.Exec.Keeps.{keeps_rules}
use acmed.Base.Exec.Costs.{Costs, Costs-of_Keeps, Costs-bind, Costs-le}
use acmed.Error.{Error}
use acmed.Config.Types.{NamedAcmeResource}
use acmed.World.{Event, Request}
use acmed.World.Env.{Env}
use acmed.Http.Client.{Net, M, ValidHttpResponse, log}
use acmed.Http.Requests
use acmed.Http.Requests.{get, post}
use acmed.Http.Frame.{
  Quiet, is_posted, update_nonce-Keeps, get_client-Keeps, rate_limit-Keeps, answered-Keeps,
  ensure_nonce-Keeps, log-Keeps, get-Keeps,
}

-- how many POST requests a log holds
abbrev pub count_posts : List Event → ℕ
count_posts [] = 0
count_posts (e ∷ log) = let n = count_posts log in if is_posted e then suc n else n

abbrev pub posts : Net → ℕ
posts s = count_posts s.world.log

pub posts_le-Quiet : (n : ℕ) → Quiet (λ s. posts s ≤ n)
posts_le-Quiet n = record { logged = λ s e q h. ground arith; renewed = λ s m q h. h }

pub log_cost : {X : Type 0} (e : Event) → Costs posts 1 (log {X = X} e)
unfolding log
log_cost e = record { at = λ s. ground arith }

-- What every quiet predicate survives costs nothing.
module _ (env : Env) where
  send_cost : (r : Request) → Costs posts 1 (Requests.send env r)
  unfolding Requests.send
  send_cost r =
      Costs-bind 1 0 _ _ (log_cost _)
        λ _. Costs-of_Keeps _ λ n. search (keeps_rules, log-Keeps (posts_le-Quiet n) env) depth 8

module _ (env : Env) (url : String) (resource : Option NamedAcmeResource)
    (data_builder : String → String → Result Error String) (content_type accept : String) where
  attempt_cost : Costs posts 1 (Requests.attempt env url resource data_builder content_type accept)
  unfolding Requests.attempt
  attempt_cost = Costs-bind 0 1 _ _ (Costs-of_Keeps _ λ n. search keeps_rules) λ nonce.
      Costs-bind 0 1 _ _ (Costs-of_Keeps _ λ n. search keeps_rules) λ body.
        Costs-bind 0 1 _ _ (Costs-of_Keeps _ λ n. rate_limit-Keeps (posts_le-Quiet n) env _ _) λ _.
          Costs-bind 1 0 _ _ (send_cost env _) λ response. Costs-of_Keeps _ λ n.
            search
              (
                keeps_rules,
                update_nonce-Keeps (posts_le-Quiet n) env,
                answered-Keeps (posts_le-Quiet n) env,
              )
              depth 8

  finish_cost :
      (k : ℕ) (m : M ValidHttpResponse) (done : Option ValidHttpResponse)
      → Costs posts k m
      → Costs posts k (Requests.finish m done)
  finish_cost k m (some v) h = Costs-le _ (Costs-of_Keeps _ λ n. search keeps_rules) (omega arith)
  finish_cost k m none h = h

  post_loop_cost :
      (tries : ℕ)
      → Costs posts tries
          (Requests.post_loop env url resource data_builder content_type accept tries)
  unfolding Requests.post_loop
  post_loop_cost zero = Costs-of_Keeps _ λ n. search keeps_rules
  post_loop_cost (suc tries) =
      Costs-le _
        (Costs-bind 1 tries _ _ attempt_cost
          λ done. finish_cost tries _ done (post_loop_cost tries))
        (omega arith)

  pub post_cost : Costs posts 10 (post env url resource data_builder content_type accept)
  unfolding post
  post_cost = Costs-bind 0 10 _ _ (Costs-of_Keeps _ λ n. search keeps_rules) λ certs.
      Costs-bind 0 10 _ _
        (Costs-of_Keeps _ λ n. search (keeps_rules, get_client-Keeps (posts_le-Quiet n) env))
        λ _. Costs-bind 0 10 _ _ (Costs-of_Keeps _ λ n. search keeps_rules) λ nonce.
          Costs-bind 0 10 _ _
            (Costs-of_Keeps _ λ n. ensure_nonce-Keeps (posts_le-Quiet n) env nonce)
            λ _. post_loop_cost 10

  -- However the server answers, one call of `post` sends at most ten POST requests, and a GET sends
  -- none.
  pub posts-post :
      (s : Net)
      → (posts (post env url resource data_builder content_type accept s).1 ≤ posts s + 10)
        × (posts (get env url resource s).1 ≤ posts s)
  posts-post s =
      (post_cost.at s, (get-Keeps (posts_le-Quiet (posts s)) env url resource).at s (omega arith))
