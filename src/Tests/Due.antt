-- ===== src/Tests/Due.antt =====
-- Runs of the theorems on when a certificate is due: it is there and complete, for 90 days and 30
-- seconds more, and is renewed 30 days before, or at a random time of the hour before that.
use acmed.Base.{ℕ, ◌≡◌, ◌<◌, ◌*◌, ◌-◌, ◌∷◌, [], refl, none, some}
use acmed.Base.Result.{panic}
use acmed.Crypto.X509.{X509Certificate}
use acmed.World.{World}
use acmed.Certificate.{Certificate, schedule_renewal}
use acmed.Certificate.Due.{Due, schedule_renewal-default}
use acmed.Tests.Authority.{issuing, cert}

abbrev stored : World
stored = record { files = λ _. some (record { content = 1 ∷ []; mode = 420 }); log = [] }

abbrev delayed : Certificate
delayed = record cert { renew_delay = 2592000000000000 }

abbrev early : Certificate
early = record delayed { random_early_renew = 3600000000000 }

schedule_renewal-default_example :
    (schedule_renewal issuing delayed stored).0 ≡ panic "cannot sample empty range"
unfolding acmed.Certificate.schedule_renewal acmed.Certificate.check_renewal
    acmed.Certificate.renew_in acmed.Certificate.gen_range acmed.Certificate.has_missing_identifiers
    acmed.Base.Exec.◌>>=◌ acmed.Crypto.X509.from_pem acmed.Crypto.X509.expires_in
    acmed.Crypto.X509.seconds_left acmed.Crypto.X509.subject_alt_names
    acmed.Storage.Files.certificate_files_exists acmed.Storage.Files.check_files
    acmed.Storage.Files.get_certificate acmed.Storage.Files.read_file
    acmed.Storage.Paths.get_file_path acmed.Storage.Paths.get_file_full_path
    acmed.Storage.Paths.file_name acmed.Storage.Paths.base_path acmed.Storage.Paths.push
    acmed.Storage.Paths.to_string acmed.Hooks.render_template acmed.World.Io.log
    acmed.World.Io.attempt_io acmed.World.Io.open_file
schedule_renewal-default_example =
    schedule_renewal-default issuing delayed stored (1 ∷ []) (record { inner_cert = 1 ∷ [] })
      7776030 refl refl refl refl refl refl
