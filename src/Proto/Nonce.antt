-- ===== src/Proto/Nonce.antt =====
-- The endpoint after `request_certificate` of acmed/src/acme_proto.rs.
use acmed.Base.{String, ◌≡◌, refl, true, some}
use acmed.Base.Result.{Result, ok, err, panic}
use acmed.Base.Exec.Keeps.{Keeps, keeps_rules}
use acmed.Error.{Error}
use acmed.Structs.Directory.{Directory}
use acmed.World.Env.{Env}
use acmed.World.Io.{Io}
use acmed.Endpoint.{Endpoint}
use acmed.Http.Client.{M, is_nonce}
use acmed.Account.State.{Account}
use acmed.Account.Sync
use acmed.Account.Sync.{Sys, on_net, on_world, change}
use acmed.Certificate.{Certificate}
use acmed.Proto.Request
use acmed.Base.{Some}
use acmed.Proto.Wide.{Wide}
use acmed.Proto.Frame.{Framed}
use acmed.Proto.Kept.{obtain-Keeps}

-- a predicate on the endpoint that a new nonce and a new directory leave true
pub record Steady (Q : Endpoint → Type 0) : Type 0 where
  pub renewed :
      (e : Endpoint) (n : String) → is_nonce n ≡ true → Q e → Q (record e { nonce = some n })
  pub refreshed : (e : Endpoint) (d : Directory) → Q e → Q (record e { dir = d })

-- of the endpoint, in the state of the account and its endpoint
abbrev pub InSys : (Endpoint → Type 0) → Sys → Type 0
InSys Q s = Q s.endpoint

module _ (Q : Endpoint → Type 0) (steady : Steady Q) where
  Steady-Wide : Wide (λ n. Q n.endpoint)
  Steady-Wide = record {
    stable = record {
      quiet = record {
        logged = λ s e p h. h;
        renewed = λ s n v h. steady.renewed s.endpoint n v h;
      };
      posted = λ s r h. h;
    };
    refreshed = λ s d h. steady.refreshed s.endpoint d h;
  }

  pub on_world-InSys : {A : Type 0} (m : Io A) → Keeps (InSys Q) (on_world m)
  unfolding on_world
  on_world-InSys m = record { at = λ s h. h }

  on_net-InSys : {A : Type 0} (m : M A) → Keeps (λ n. Q n.endpoint) m → Keeps (InSys Q) (on_net m)
  unfolding on_net
  on_net-InSys m k = record { at = λ s h. k.at _ h }

  assigned : (r : Result Error Account) (s : Sys) → Q s.endpoint → Q (Sync.assign r s).1.endpoint
  assigned (ok b) s h = h
  assigned (err x) s h = h
  assigned (panic x) s h = h

  change-InSys :
      (f : String → Account → Result Error Account) (name : String)
      → Keeps (InSys Q) (change f name)
  unfolding change
  change-InSys f name = record { at = λ s h. assigned (f name s.account) s h }

  save_account-InSys : (env : Env) → Keeps (InSys Q) (Sync.save_account env)
  unfolding Sync.save_account
  save_account-InSys env = search (keeps_rules, on_world-InSys)

  Steady-Framed : (env : Env) (cert : Certificate) → Framed env cert (InSys Q)
  Steady-Framed env cert = record {
    requested = λ A m h. on_net-InSys m (h _ Steady-Wide);
    changed = λ f name _. change-InSys f name;
    saved = save_account-InSys env;
    hooked = λ file_name proof identifier. on_world-InSys _;
    cleaned = λ d t. on_world-InSys _;
    keyed = on_world-InSys _;
  }

  pub request_certificate-Keeps :
      (env : Env) (cert : Certificate) → Keeps (InSys Q) (Request.request_certificate env cert)
  unfolding Request.request_certificate
  request_certificate-Keeps env cert =
      search (keeps_rules, obtain-Keeps env cert (InSys Q) (Steady-Framed env cert), on_world-InSys)
        depth 10

-- The endpoint is the one that there was before, but for its directory and its nonce, and the nonce
-- is absent or valid.
pub record IsSame (before after : Endpoint) : Type 0 where
  pub name : after.name ≡ before.name
  pub url : after.url ≡ before.url
  pub tos_agreed : after.tos_agreed ≡ before.tos_agreed
  pub limits : after.rl ≡ before.rl
  pub root_certificates : after.root_certificates ≡ before.root_certificates
  pub nonce : Some (λ n. is_nonce n ≡ true) after.nonce

pub IsSame-Steady : (e : Endpoint) → Steady (IsSame e)
IsSame-Steady e = record {
  renewed = λ a n valid h. record {
    name = h.name;
    url = h.url;
    tos_agreed = h.tos_agreed;
    limits = h.limits;
    root_certificates = h.root_certificates;
    nonce = valid;
  };
  refreshed = λ a d h. record {
    name = h.name;
    url = h.url;
    tos_agreed = h.tos_agreed;
    limits = h.limits;
    root_certificates = h.root_certificates;
    nonce = h.nonce;
  };
}

-- However the request of a certificate ends, and whatever the server and the hooks do, of the
-- endpoint only the directory and the nonce can change, and a nonce that was absent or valid before
-- is so afterwards.
pub request_certificate-IsSame :
    (env : Env) (cert : Certificate) (s : Sys)
    → Some (λ n. is_nonce n ≡ true) s.endpoint.nonce
    → IsSame s.endpoint (Request.request_certificate env cert s).1.endpoint
request_certificate-IsSame env cert s h =
    (request_certificate-Keeps (IsSame s.endpoint) (IsSame-Steady s.endpoint) env cert).at s
      (record {
        name = refl;
        url = refl;
        tos_agreed = refl;
        limits = refl;
        root_certificates = refl;
        nonce = h;
      })
