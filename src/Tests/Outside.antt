-- ===== src/Tests/Outside.antt =====
-- A small operating system, a server and packages for the runs: the server refuses the first POST
-- with a bad nonce and accepts the next; nothing fails on the machine.
use acmed.Base.{String, ◌<>◌, Bool, true, false, none, some, List, [], ◌∷◌, string_eq}
use acmed.Base.Result.{Result, ok, err}
use acmed.Structs.Problem.{HttpApiError}
use acmed.Structs.Directory.{Directory}
use acmed.World.{Bytes, World, Event, sent, slept, Response, Method}
use acmed.World.Env.{Env, Json, Crypto, Unix, X509, v4, PkeyId, prime256v1}
use acmed.Endpoint.{Endpoint}
use acmed.Http.Client.{Net}

abbrev no_answer : {A : Type 0} → String → Result String A
no_answer _ = err "unsupported"

abbrev bad_nonce_problem : HttpApiError
bad_nonce_problem = record {
  error_type = some "urn:ietf:params:acme:error:badNonce";
  status = none;
  detail = none;
}

abbrev json : Json
json = record {
  read_problem = λ _. ok bad_nonce_problem;
  read_directory = no_answer;
  read_order = no_answer;
  read_authorization = no_answer;
  read_account = no_answer;
  read_value = λ s. ok s;
  write_new_order = λ _. ok "order";
  write_account = λ _. ok "account";
  write_account_update = λ _. ok "update";
  write_rollover = λ _. ok "rollover";
  write_protected = λ h. ok (h.alg <> h.url);
  write_jws = λ d. ok (d.protected <> ("." <> (d.payload <> ("." <> d.signature))));
  write_csr = λ s. s;
  write_object = λ _. "jwk";
}

abbrev crypto : Crypto
crypto = record {
  hash = λ _ d. d;
  hmac = λ _ k d. ok k;
  b64_encode = λ _. "b64";
  b64_decode = λ _. ok (4 ∷ []);
  generate = λ _ _. ok (1 ∷ 2 ∷ []);
  public_key_to_pem = λ k. ok k;
  private_key_to_pem = λ k. ok k;
  private_key_from_pem = λ d. ok d;
  private_key_to_der = λ k. ok k;
  private_key_from_der = λ d. ok d;
  key_id = λ _. PkeyId.ec;
  rsa_size = λ _. err "unsupported";
  rsa_numbers = λ _. err "unsupported";
  curve_name = λ _. ok (some prime256v1);
  affine_coordinates = λ _ _. ok (5, 6);
  to_vec = λ n. n ∷ [];
  to_vec_padded = λ n _. ok (n ∷ []);
  sign = λ _ _ d. ok d;
  ecdsa_sign = λ _ _. ok (8, 9);
}

abbrev x509 : X509
x509 = record {
  from_pem = λ _. ok tt;
  diff = λ _ _. ok (record { days = 90; secs = 30 });
  subject_alt_names = λ _. some (record { dnsname = some "example.org"; ipaddress = none } ∷ []);
  build_csr = λ _ _. ok (3 ∷ []);
  csr_to_pem = λ _. ok "csr";
  csr_to_der = λ d. ok d;
}

abbrev unix : Unix
unix = record { parse_u32 = λ _. none; user = λ _ _. ok none; group = λ _ _. ok none }

-- After a refusal the program sleeps before its next request.
abbrev refused_before : List Event → Bool
refused_before (sent r ∷ (slept n ∷ log)) = true
refused_before log = false

abbrev response : Bool → Response
response success = record {
  code = 200;
  status_text = "200";
  is_success = success;
  header = λ _. some (some "n0nce");
  body = "body";
}

abbrev answer : World → Method → Result String Response
answer w Method.get = ok (response true)
answer w Method.post = ok (response (refused_before w.log))

abbrev pub outside : Env
outside = record {
  x509 = x509;
  gen_range = λ _ _. 0;
  json = json;
  unix = unix;
  crypto = crypto;
  load_certificate = λ _. ok tt;
  build_client = λ _. ok tt;
  send = λ w r. answer w r.method;
  text = λ _ r. ok r.body;
  io_error = λ _ _. none;
  exit_status = λ _ _. record { success = true; code = some 0 };
  files_after = λ w _. w.files;
  lines = λ _. ok [];
  vars = [];
  now = λ _. 1700000000;
  serialize = λ _. ok [];
  deserialize = no_bytes;
  render = λ t _. ok t;
  as_bytes = λ _. 7 ∷ [];
  from_utf8 = λ _. ok "text";
  unicode = λ s. s;
  punycode = λ s. ok s;
  parse_ip = λ _. ok (v4 (127 ∷ 0 ∷ 0 ∷ 1 ∷ []));
  show_ip = λ _. "127.0.0.1";
  is_match = λ _ _. false;
}
  where
    no_bytes : {A : Type 0} → Bytes → Result String A
    no_bytes _ = err "unsupported"

abbrev pub machine : World
machine = record { files = λ _. none; log = [] }

abbrev directory : Directory
directory = record {
  meta = none;
  new_nonce = "https://ca.example/nonce";
  new_account = "https://ca.example/account";
  new_order = "https://ca.example/order";
  new_authz = none;
  revoke_cert = "";
  key_change = "https://ca.example/key";
}

abbrev pub endpoint : Endpoint
endpoint = record {
  name = "ca";
  url = "https://ca.example";
  tos_agreed = true;
  nonce = some "first";
  rl = record { limits = [] };
  dir = directory;
  root_certificates = [];
}

abbrev pub net : Net
net = record { endpoint = endpoint; world = machine }
