-- ===== src/MainLoop/Errors.antt =====
-- What becomes of the errors of a renewal in acmed/src/main_event_loop.rs.
use acmed.Base.{◌≡◌}
use acmed.Base.Result.{Result, err}
use acmed.Base.Exec.{Exec}
use acmed.Error.{Error}
use acmed.World.Env.{Env}
use acmed.Account.Sync.{Sys}
use acmed.Certificate.{Certificate}

-- An action that returns no error.
record NoError {A : Type 0} (m : Exec Sys Error A) : Type 0 where
  at : (s : Sys) (e : Error) → ¬ ((m s).0 ≡ err e)
