-- ===== src/MainLoop.antt =====
-- `renew_certificate` of acmed/src/main_event_loop.rs: a certificate is waited for, requested, and
-- reported. The loop that waits has no bound, so it takes the number of its rounds.
pub mod Errors
pub mod Setup
pub mod New
pub mod Served
pub mod WellFormed
pub mod Count
pub mod Run
pub mod Reachable
use acmed.Base.{ℕ, zero, suc, ◌+◌, ◌*◌, String, Bool, true, false, List, [], ◌∷◌, if◌then◌else◌}
use acmed.Base.Result.{Result, ok, err, panic}
use acmed.Base.Exec.{Exec, pure, lift, ◌>>=◌, ◌>>◌}
use acmed.Error.{Error, prefix}
use acmed.World.{waited}
use acmed.World.Env.{Env}
use acmed.World.Io
use acmed.Account.Sync.{Sys, on_world}
use acmed.Certificate.{Certificate, nanoseconds, schedule_renewal, call_post_operation_hooks}
use acmed.Proto.Request.{request_certificate}

-- in seconds, by the number of failures before: the last entry stands for all that follow
unfoldable pub backoff : ℕ → ℕ
backoff zero = 60
backoff (suc zero) = 600
backoff (suc (suc zero)) = 6000
backoff (suc (suc (suc _))) = 86400

-- the status for the hooks
abbrev pub report : Result Error (Unit {0}) → Result Error (String × Bool)
report (ok _) = ok ("success", true)
report (err e) = ok ((prefix "unable to renew the certificate" e).message, false)
report (panic m) = panic m

-- An error of the hooks is logged only.
abbrev pub ignore : Result Error (Unit {0}) → Result Error (Unit {0})
ignore (ok _) = ok tt
ignore (err e) = ok tt
ignore (panic m) = panic m

module _ (env : Env) (cert : Certificate) where
  -- `sleep`
  unfoldable pub sleep : ℕ → Exec Sys Error (Unit {0})
  sleep duration = on_world (Io.log (waited duration))

  -- What a round makes of `schedule_renewal`; `again` is the next round.
  abbrev pub due : ℕ → Exec Sys Error Bool → Result Error ℕ → Exec Sys Error Bool
  due retries again (ok duration) = sleep duration >> pure true
  due retries again (err e) = sleep (nanoseconds (backoff retries)) >> again
  due retries again (panic m) = lift (panic m)

  unfoldable pub next_round : ℕ → Exec Sys Error Bool → Exec Sys Error Bool
  next_round retries again s =
      let (r, s') = on_world (schedule_renewal env cert) s in due retries again r s'

  -- whether the certificate is due after this many rounds
  unfoldable pub wait : ℕ → ℕ → Exec Sys Error Bool
  wait zero retries = pure false
  wait (suc rounds) retries = next_round retries (wait rounds (suc retries))

  unfoldable pub request : Exec Sys Error (String × Bool)
  request s = let (r, s') = request_certificate env cert s in (report r, s')

  unfoldable pub call_hooks : String × Bool → Exec Sys Error (Unit {0})
  call_hooks (status, is_success) s =
      let (r, s') = on_world (call_post_operation_hooks env cert status is_success) s in
      (ignore r, s')

  unfoldable pub renew : Bool → Exec Sys Error (Unit {0})
  renew false = pure tt
  renew true = request >>= call_hooks

  unfoldable pub renew_certificate : ℕ → Exec Sys Error (Unit {0})
  renew_certificate rounds = wait rounds 0 >>= renew
