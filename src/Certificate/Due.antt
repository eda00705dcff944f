-- ===== src/Certificate/Due.antt =====
-- When a certificate of acmed/src/certificate.rs is due.
use acmed.Base.{ℕ, suc, ◌-◌, ◌<◌, ◌≡◌, refl, true, false}
use acmed.Base.Result.{Result, ok, panic}
use acmed.Base.Exec.{continue, pure, ◌>>=◌}
use acmed.Base.Exec.Ensures.{Ensures}
use acmed.Error.{Error}
use acmed.Crypto.X509.{X509Certificate, from_pem, expires_in}
use acmed.World.{World, Bytes}
use acmed.World.Env.{Env}
use acmed.World.Io.{Io}
use acmed.Storage.Files.{certificate_files_exists, get_certificate}
use acmed.Certificate.{
  Certificate, nanoseconds, gen_range, has_missing_identifiers, renew_in, check_renewal, scheduled,
  schedule_renewal,
}

-- Why a certificate is due in `d` nanoseconds: a file of it is missing, it lacks an identifier, or
-- it expires later than that by the configured delay and a time below the random one.
pub data Due (env : Env) (cert : Certificate) (d : ℕ) (w : World) : Type 0 where
  absent : certificate_files_exists env cert.file_manager w ≡ false → d ≡ 0 → Due env cert d w
  incomplete :
      (crt : X509Certificate)
      → has_missing_identifiers env cert crt ≡ true
      → d ≡ 0
      → Due env cert d w
  in_time :
      (crt : X509Certificate) (secs early : ℕ)
      → has_missing_identifiers env cert crt ≡ false
      → expires_in env w crt ≡ ok secs
      → early < cert.random_early_renew
      → d ≡ nanoseconds secs - cert.renew_delay - early
      → Due env cert d w

-- rand draws below the bound.
pub record Draws (env : Env) : Type 0 where
  pub below : (w : World) (bound : ℕ) → env.gen_range w (suc bound) < suc bound

module _ (env : Env) (cert : Certificate) (draws : Draws env) where
  abbrev early_by : Result Error ℕ → ℕ → Io ℕ
  early_by g secs = continue g (λ early. pure (nanoseconds secs - cert.renew_delay - early))

module _ (env : Env) (cert : Certificate) where
  -- Where no random time is configured, as by default, `schedule_renewal` panics on a certificate
  -- that is there, can be read and is complete: it draws from an empty range.
  pub schedule_renewal-default :
      (w : World) (raw : Bytes) (crt : X509Certificate) (secs : ℕ)
      → cert.random_early_renew ≡ 0
      → certificate_files_exists env cert.file_manager w ≡ true
      → (get_certificate env cert.file_manager w).0 ≡ ok raw
      → from_pem env raw ≡ ok crt
      → has_missing_identifiers env cert crt ≡ false
      → expires_in env (get_certificate env cert.file_manager w).1 crt ≡ ok secs
      → (schedule_renewal env cert w).0 ≡ panic "cannot sample empty range"
  unfolding schedule_renewal scheduled check_renewal renew_in gen_range ◌>>=◌
  schedule_renewal-default w raw crt secs none_ there read parsed complete left =
      rw there (rw read (rw parsed (rw complete (rw left (rw none_ refl)))))
