-- ===== src/MainLoop/Run.antt =====
-- `MainEventLoop::run` of acmed/src/main_event_loop.rs as a step relation: which renewal is the next
-- to end is not determined. What several renewals do at the same time is taken as one after another.
use acmed.Base.{ℕ, ◌≡◌, true, Option, none, some, List, [], ◌∷◌, ◌++◌}
use acmed.Base.Result.{ok}
use acmed.Base.Dict.{Dict, get, insert}
use acmed.World.{World}
use acmed.World.Env.{Env}
use acmed.Account.State.{Account}
use acmed.Account.Sync.{Sys}
use acmed.Endpoint
use acmed.Certificate
use acmed.MainLoop.{wait, renew_certificate}
use acmed.MainLoop.Setup.{MainEventLoop}

abbrev add_renewal :
    Certificate.Certificate
    → Option Account
    → Option Endpoint.Endpoint
    → List Certificate.Certificate
    → List Certificate.Certificate
add_renewal crt none ept renewals = renewals
add_renewal crt (some acc) none renewals = renewals
add_renewal crt (some acc) (some ept) renewals = crt ∷ renewals

-- A renewal is known by its certificate, which names the shared account and endpoint.
unfoldable pub renewals_of :
    MainEventLoop → Dict Certificate.Certificate → List Certificate.Certificate
renewals_of l [] = []
renewals_of l ((id, crt) ∷ more) =
    add_renewal crt (get crt.account_name l.accounts) (get crt.endpoint_name l.endpoints)
      (renewals_of l more)

-- `renewals`, and what they share
pub record Running : Type 0 where
  pub accounts : Dict Account
  pub endpoints : Dict Endpoint.Endpoint
  pub world : World
  pub renewals : List Certificate.Certificate

unfoldable pub start : MainEventLoop → World → Running
start l w = record {
  accounts = l.accounts;
  endpoints = l.endpoints;
  world = w;
  renewals = renewals_of l l.certificates;
}

unfoldable pub enter : Running → Account → Endpoint.Endpoint → Sys
enter s acc ept = record { account = acc; endpoint = ept; world = s.world }

-- A renewal that has ended is added again.
unfoldable pub again :
    Running
    → List Certificate.Certificate
    → Certificate.Certificate
    → List Certificate.Certificate
    → Sys
    → Running
again s before crt after t = record {
  accounts = insert crt.account_name t.account s.accounts;
  endpoints = insert crt.endpoint_name t.endpoint s.endpoints;
  world = t.world;
  renewals = before ++ (after ++ (crt ∷ []));
}

-- One renewal has waited until its certificate was due, and ended.
pub data Step (env : Env) : Running → Running → Type 0 where
  renewed :
      (s : Running) (before : List Certificate.Certificate) (crt : Certificate.Certificate)
      (after : List Certificate.Certificate) (acc : Account) (ept : Endpoint.Endpoint) (rounds : ℕ)
      → s.renewals ≡ before ++ (crt ∷ after)
      → get crt.account_name s.accounts ≡ some acc
      → get crt.endpoint_name s.endpoints ≡ some ept
      → (wait env crt rounds 0 (enter s acc ept)).0 ≡ ok true
      → (renew_certificate env crt rounds (enter s acc ept)).0 ≡ ok tt
      → Step env s (again s before crt after (renew_certificate env crt rounds (enter s acc ept)).1)

pub data Reach (env : Env) (s : Running) : Running → Type 0 where
  here : Reach env s s
  next : {t u : Running} → Reach env s t → Step env t u → Reach env s u
