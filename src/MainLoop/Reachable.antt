-- ===== src/MainLoop/Reachable.antt =====
-- What stays true while `MainEventLoop::run` of acmed/src/main_event_loop.rs renews certificates.
use acmed.Base.{String, ◌≡◌, some, List, map, string_eq}
use mathlib.Core.List.{Perm}
use mathlib.Core.List.Perm
use acmed.Base.Result.{Result}
use acmed.Base.Exec.{Exec}
use acmed.Base.Exec.Keeps.{Keeps}
use acmed.Base.Dict.{Dict, get}
use acmed.Error.{Error}
use acmed.World.{World}
use acmed.World.Env.{Env}
use acmed.Account.State.{Account}
use acmed.Endpoint.{Endpoint}
use acmed.Certificate
use acmed.Certificate.{nanoseconds}
use acmed.Proto.Nonce.{IsSame}
use acmed.MainLoop.Setup.{MainEventLoop}
use acmed.MainLoop.Run.{Running}

-- Every certificate waits for its renewal, its account is there, and the endpoints are those of the
-- start, but for their directories and nonces.
pub record Serving (l : MainEventLoop) (s : Running) : Type 0 where
  pub pending : Perm s.renewals (map (λ (e : String × Certificate.Certificate). e.1) l.certificates)
  pub account :
      (name : String) (a : Account)
      → get name l.accounts ≡ some a
      → (b : Account) × (get name s.accounts ≡ some b)
  pub endpoint :
      (name : String) (e : Endpoint)
      → get name l.endpoints ≡ some e
      → (x : Endpoint) × (get name s.endpoints ≡ some x) × IsSame e x
