-- ===== src/Endpoint.antt =====
-- acmed/src/endpoint.rs: an endpoint of an authority, its nonce, its directory and its rate limits.
pub mod Limits
use acmed.Base.{String, Bool, Option, none, List}
use acmed.Base.Result.{Result, ok, ◌>>=◌}
use acmed.Error.{Error}
use acmed.Structs.Directory.{Directory}
use acmed.Config.Types.{RateLimit}
use acmed.Endpoint.Limits
use acmed.Endpoint.Limits.{RateLimits, Packages}

pub record Endpoint : Type 0 where
  pub name : String
  pub url : String
  pub tos_agreed : Bool
  pub nonce : Option String
  pub rl : RateLimits
  pub dir : Directory
  pub root_certificates : List String

empty_directory : Directory
empty_directory = record {
  meta = none;
  new_nonce = "";
  new_account = "";
  new_order = "";
  new_authz = none;
  revoke_cert = "";
  key_change = "";
}

-- `Endpoint::new`
unfoldable pub new :
    Packages → String → String → Bool → List RateLimit → List String → Result Error Endpoint
unfolding empty_directory
new packages name url tos_agreed limits root_certs = do
  rl ← Limits.new packages limits
  ok (record {
    name = name;
    url = url;
    tos_agreed = tos_agreed;
    nonce = none;
    rl = rl;
    dir = empty_directory;
    root_certificates = root_certs;
  })
