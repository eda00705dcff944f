-- ===== src/Tests/Network.antt =====
-- Runs of the theorems on requests.
use acmed.Base.{String, refl, Option, none, ◌≤◌, ◌+◌}
use acmed.Base.Result.{Result, ok}
use acmed.Error.{Error}
use acmed.Http.Client.{ValidHttpResponse, is_nonce, header_to_string, log}
use acmed.Base.Exec.{◌>>=◌}
use acmed.Structs.Problem.{is_recoverable, acme_error_beq}
use acmed.Http.Requests.{
  get, post, post_loop, attempt, rate_limit, block_until_allowed, send, get_client,
  add_root_certificates, ensure_nonce, update_nonce, store_header, store_nonce, set_nonce,
  check_status, answered, accepted, refused, recover_from, from_response,
}
use acmed.Http.Nonce.{HasValidNonce, post-HasValidNonce}
use acmed.Http.Budget.{posts, posts-post}
use acmed.Http.Answer.{Answers, post-Answers}
use acmed.Tests.Outside.{outside, net}

abbrev message : String → String → Result Error String
message nonce url = ok nonce

abbrev url : String
url = "https://ca.example/order"

post-HasValidNonce_example :
    HasValidNonce (get outside url none net).1
    × HasValidNonce (post outside url none message "a" "b" net).1
unfolding is_nonce
post-HasValidNonce_example = post-HasValidNonce outside url none message "a" "b" net refl

posts-post_example :
    (posts (post outside url none message "a" "b" net).1 ≤ posts net + 10)
    × (posts (get outside url none net).1 ≤ posts net)
posts-post_example = posts-post outside url none message "a" "b" net

abbrev answer : ValidHttpResponse
answer = record { headers = λ _. Option.some (Option.some "n0nce"); body = "body" }

post-Answers_example : Answers outside answer (post outside url none message "a" "b" net).1
unfolding post post_loop attempt get rate_limit block_until_allowed send get_client
    add_root_certificates ensure_nonce update_nonce store_header store_nonce set_nonce
    header_to_string check_status answered accepted refused recover_from from_response is_nonce
    is_recoverable acme_error_beq log ◌>>=◌ acmed.Structs.Problem.get_acme_type
    acmed.Structs.Problem.from_type
post-Answers_example = post-Answers outside url none message "a" "b" net answer refl
