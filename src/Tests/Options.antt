-- ===== src/Tests/Options.antt =====
-- Runs of the theorems on options: a wildcard certificate without a name, whose endpoint says when it
-- is renewed.
use acmed.Base.{
  ℕ, String, ◌≡◌, refl, Bool, true, not, ◌||◌, Option, none, some, List, [], ◌∷◌, ◌==◌, number_eq,
  all_chars,
}
use acmed.Base.Result.{ok}
use acmed.Config.Types
use acmed.Config.Types.{Config}
use acmed.Config.Options.{
  read_or, find_endpoint, do_get_endpoint, get_renew_delay, get_random_early_renew, get_crt_name,
}
use acmed.Config.Inherited.{get_renew_delay-first_set, get_crt_name-unreserved}

abbrev pub endpoint : Types.Endpoint
endpoint = record {
  file_name_format = none;
  name = "ca";
  random_early_renew = none;
  rate_limits = [];
  renew_delay = some "1w";
  root_certificates = none;
  tos_agreed = true;
  url = "https://ca.example";
}

abbrev no_attributes : Types.SubjectAttributes
no_attributes = record {
  country_name = none;
  generation_qualifier = none;
  given_name = none;
  initials = none;
  locality_name = none;
  name = none;
  organization_name = none;
  organizational_unit_name = none;
  pkcs9_email_address = none;
  postal_address = none;
  postal_code = none;
  state_or_province_name = none;
  street = none;
  surname = none;
  title = none;
}

abbrev pub crt : Types.Certificate
crt = record {
  account = "me";
  csr_digest = none;
  directory = none;
  endpoint = "ca";
  env = [];
  file_name_format = none;
  hooks = [];
  identifiers =
      record { challenge = "dns-01"; dns = some "*.example.org"; env = []; ip = none } ∷ [];
  key_type = none;
  kp_reuse = none;
  name = none;
  random_early_renew = none;
  renew_delay = none;
  subject_attributes = no_attributes;
}

abbrev pub cnf : Config
cnf = record {
  global = none;
  endpoint = endpoint ∷ [];
  rate_limit = [];
  hook = [];
  group = [];
  account = [];
  certificate = crt ∷ [];
  included = [];
}

get_renew_delay-first_set_example :
    (get_renew_delay crt cnf ≡ read_or (some "1w") (ok 2592000))
    × (get_random_early_renew crt cnf ≡ read_or none (ok 0))
unfolding do_get_endpoint find_endpoint
get_renew_delay-first_set_example = get_renew_delay-first_set crt cnf endpoint refl

get_crt_name-unreserved_example :
    all_chars (λ c. not (c == b'*' || (c == b':' || c == b'/'))) "_.example.org" ≡ true
unfolding get_crt_name acmed.Config.Options.shown acmed.Config.Options.is_reserved
    acmed.Base.replace
get_crt_name-unreserved_example = get_crt_name-unreserved crt "_.example.org" refl
