-- ===== src/Http/Client.antt =====
-- The definitions of acmed/src/http.rs. The state is the endpoint, which every request changes by
-- the nonce of its response, and the world.
use acmed.Base.{
  ℕ, String, Bool, not, ◌||◌, ◌&&◌, Option, none, some, ◌==◌, number_eq, string_eq, all_chars,
  is_empty, is_ascii_alphanumeric,
}
use acmed.Base.Result
use acmed.Base.Result.{Result, ok, err, panic}
use acmed.Base.Exec.{Exec, modify}
use acmed.Error.{Error, from_text, from_json}
use acmed.Structs.Problem.{AcmeError, HttpApiError, get_acme_type, acme_error_beq, to_error}
use acmed.World.{World, Event, record_event}
use acmed.Endpoint.{Endpoint}

abbrev pub content_type_jose : String
content_type_jose = "application/jose+json"

abbrev pub content_type_json : String
content_type_json = "application/json"

abbrev pub content_type_pem : String
content_type_pem = "application/pem-certificate-chain"

abbrev pub header_nonce : String
header_nonce = "Replay-Nonce"

abbrev pub header_location : String
header_location = "Location"

-- main.rs
abbrev pub default_http_fail_nb_retry : ℕ
default_http_fail_nb_retry = 10

abbrev pub default_http_fail_wait_sec : ℕ
default_http_fail_wait_sec = 1

pub record ValidHttpResponse : Type 0 where
  pub headers : String → Option (Option String)
  pub body : String

pub data HttpError : Type 0 where
  api_error : HttpApiError → HttpError
  generic_error : Error → HttpError

unfoldable pub in_err : HttpError → Error
in_err (api_error e) = to_error e
in_err (generic_error e) = e

unfoldable pub is_acme_err : HttpError → AcmeError → Bool
is_acme_err (api_error e) acme_error = acme_error_beq (get_acme_type e) acme_error
is_acme_err (generic_error _) _ = Bool.false

pub record Net : Type 0 where
  pub endpoint : Endpoint
  pub world : World

abbrev pub M : Type 0 → Type 0
M A = Exec Net HttpError A

-- the code of a function that returns `Result<A, Error>`
abbrev pub E : Type 0 → Type 0
E A = Exec Net Error A

unfoldable pub log : {X : Type 0} → Event → Exec Net X (Unit {0})
unfolding modify
log e = modify (λ s. record s { world = record_event e s.world })

unfoldable pub header_to_string : Option String → Result Error String
header_to_string none = err (from_text "invalid header format")
header_to_string (some s) = ok s

abbrev or_none : Result Error String → Option String
or_none (ok h) = some h
or_none (err _) = none
or_none (panic _) = none

-- `ValidHttpResponse::get_header`
unfoldable pub get_header : ValidHttpResponse → String → Option String
unfolding header_to_string
get_header r name = elim (r.headers name) [ none ↦ none | some h ↦ or_none (header_to_string h) ]

-- `ValidHttpResponse::json`
abbrev pub json : {A : Type 0} → (String → Result String A) → ValidHttpResponse → Result Error A
json decode r = Result.map_err from_json (decode r.body)

-- The test on bytes is one on characters: those outside ASCII fail both.
unfoldable pub is_nonce : String → Bool
is_nonce data_in =
    not (is_empty data_in)
    && all_chars (λ c. is_ascii_alphanumeric c || (c == b'-' || c == b'_')) data_in
