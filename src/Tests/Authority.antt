-- ===== src/Tests/Authority.antt =====
-- An authority that asks for one challenge and then issues a certificate, an account that it knows,
-- and a certificate of the configuration.
use acmed.Base.{
  String, ◌<>◌, Bool, true, false, ◌||◌, none, some, List, [], ◌∷◌, ◌==◌, string_eq, if◌then◌else◌,
}
use acmed.Base.Result.{ok}
use acmed.Crypto.KeyType.{KeyType}
use acmed.Crypto.Algorithm.{JwsSignatureAlgorithm}
use acmed.Crypto.Hash.{HashFunction}
use acmed.Structs.Order.{Order, OrderStatus}
use acmed.Structs.Authorization.{Authorization, AuthorizationStatus, TokenChallenge}
use acmed.Structs.Authorization
use acmed.Structs.Identifier.{IdentifierType, dns01}
use acmed.World.{World, Event, sent, Response}
use acmed.World.Env.{Env, TemplateData, cert_file, post_operation, challenge, file_storage}
use acmed.Storage.Paths.{FileManager}
use acmed.Account.State.{Account}
use acmed.Account.Sync.{Sys}
use acmed.Certificate.{Certificate}
use acmed.Tests.Outside.{outside, machine, endpoint}

abbrev asked : String → List Event → Bool
asked url [] = false
asked url (sent r ∷ log) = url == r.url || asked url log
asked url (e ∷ log) = asked url log

abbrev stage : List Event → String
stage log =
    if asked "https://ca.example/finalize" log
    then "valid"
    else if asked "https://ca.example/challenge" log
    then "ready"
    else "pending"

abbrev order_status : String → OrderStatus
order_status b = if b == "valid" then OrderStatus.valid else OrderStatus.ready

abbrev pub order : String → Order
order b = record {
  status = order_status b;
  expires = none;
  identifiers = [];
  not_before = none;
  not_after = none;
  error = none;
  authorizations = "https://ca.example/authz" ∷ [];
  finalize = "https://ca.example/finalize";
  certificate = some "https://ca.example/cert";
}

abbrev token : TokenChallenge
token = record {
  url = "https://ca.example/challenge";
  status = none;
  validated = none;
  error = none;
  token = "token";
}

abbrev authorization : String → Authorization
authorization b = record {
  identifier = record { id_type = IdentifierType.dns; value = "example.org" };
  status = if b == "pending" then AuthorizationStatus.pending else AuthorizationStatus.valid;
  expires = none;
  challenges = Authorization.dns01 token ∷ [];
  wildcard = none;
}

abbrev accepted : World → Response
accepted w = record {
  code = 200;
  status_text = "200";
  is_success = true;
  header = λ _. some (some "n0nce");
  body = stage w.log;
}

abbrev file_of : TemplateData → String
file_of (cert_file f) = f.name <> ("." <> (f.file_type <> ("." <> f.ext)))
file_of (post_operation _) = ""
file_of (challenge _) = ""
file_of (file_storage _) = ""

abbrev pub issuing : Env
issuing = record outside {
  render = λ _ d. ok (file_of d);
  send = λ w r. ok (accepted w);
  json = record (outside.json) {
    read_directory = λ _. ok endpoint.dir;
    read_order = λ b. ok (order b);
    read_authorization = λ b. ok (authorization b);
  };
}

abbrev pub fm : FileManager
fm = record {
  account_name = "me";
  account_directory = "/acc";
  crt_name = "example.org";
  crt_name_format = "cert";
  crt_directory = "/crt";
  crt_key_type = "ecdsa-p256";
  cert_file_mode = 420;
  cert_file_owner = none;
  cert_file_group = none;
  pk_file_mode = 384;
  pk_file_owner = none;
  pk_file_group = none;
  hooks = [];
  env = [];
}

abbrev pub account : Account
account = record {
  name = "me";
  endpoints =
      (
        "ca",
        record {
          creation_date = 0;
          account_url = "https://ca.example/me";
          orders_url = "";
          key_hash = 1 ∷ [];
          contacts_hash = 7 ∷ [];
          external_account_hash = [];
        },
      )
      ∷ [];
  contacts = [];
  current_key = record {
    creation_date = 0;
    key = record { key_type = KeyType.ecdsa_p256; inner_key = 1 ∷ [] };
    signature_algorithm = JwsSignatureAlgorithm.es256;
  };
  past_keys = [];
  file_manager = fm;
  external_account = none;
}

abbrev pub cert : Certificate
cert = record {
  account_name = "me";
  identifiers =
      record { id_type = IdentifierType.dns; value = "example.org"; challenge = dns01; env = [] }
      ∷ [];
  subject_attributes = [];
  key_type = KeyType.ecdsa_p256;
  csr_digest = HashFunction.sha256;
  kp_reuse = false;
  endpoint_name = "ca";
  hooks = [];
  crt_name = "example.org";
  env = [];
  random_early_renew = 0;
  renew_delay = 0;
  file_manager = fm;
}

abbrev pub sys : Sys
sys = record { account = account; endpoint = endpoint; world = machine }
