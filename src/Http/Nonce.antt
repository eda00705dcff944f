-- ===== src/Http/Nonce.antt =====
-- The nonce that an endpoint holds, under the requests of acmed/src/http.rs.
use acmed.Base.{String, ◌≡◌, true, Option, Some}
use acmed.Base.Result.{Result}
use acmed.Error.{Error}
use acmed.Config.Types.{NamedAcmeResource}
use acmed.World.Env.{Env}
use acmed.Http.Client.{Net, is_nonce}
use acmed.Http.Requests.{get, post}
use acmed.Http.Frame.{Quiet, Stable, get-Keeps, post-Keeps}

abbrev pub HasValidNonce : Net → Type 0
HasValidNonce s = Some (λ n. is_nonce n ≡ true) s.endpoint.nonce

HasValidNonce-Quiet : Quiet HasValidNonce
HasValidNonce-Quiet = record { logged = λ s e _ h. h; renewed = λ s n h _. h }

pub HasValidNonce-Stable : Stable HasValidNonce
HasValidNonce-Stable = record { quiet = HasValidNonce-Quiet; posted = λ s r h. h }

-- Whatever the server answers and however the request ends, an endpoint whose nonce is absent or
-- valid (not empty, of ASCII letters, digits, dashes and underscores) still has such a nonce after
-- a GET and after a POST with all its retries.
pub post-HasValidNonce :
    (env : Env) (url : String) (resource : Option NamedAcmeResource)
    (data_builder : String → String → Result Error String) (content_type accept : String) (s : Net)
    → HasValidNonce s
    → HasValidNonce (get env url resource s).1
      × HasValidNonce (post env url resource data_builder content_type accept s).1
post-HasValidNonce env url resource data_builder content_type accept s h = (
  (get-Keeps HasValidNonce-Quiet env url resource).at s h,
  (post-Keeps HasValidNonce-Stable env url resource data_builder content_type accept).at s h,
)
