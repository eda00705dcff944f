-- ===== src/Tests/Loop.antt =====
-- Runs of the event loop: the loop of a small configuration, and one renewal.
use acmed.Base.{ℕ, suc, ◌+◌, length, true, ◌≡◌, refl, Option, none, List, [], ◌∷◌, ◌==◌, string_eq}
use acmed.Base.Result.{Result, ok, err, panic}
use acmed.Base.Dict.{get}
use acmed.Error.{Error}
use acmed.Account.State.{AccountEndpoint}
use acmed.Account.Sync.{Sys}
use acmed.World.{World}
use acmed.Endpoint.{Endpoint}
use acmed.Endpoint.Limits.{Packages}
use acmed.MainLoop.Setup.{MainEventLoop, add_certificates}
use acmed.MainLoop.New.{new}
use acmed.MainLoop.Served.{WellFormed}
use acmed.MainLoop.WellFormed.{new-WellFormed}
use acmed.MainLoop.Count.{add_certificates-length}
use acmed.MainLoop.Run.{Running, Reach}
use acmed.Tests.Outside.{outside, machine, endpoint}
use acmed.Tests.Authority.{account, cert}
use acmed.Tests.Options.{cnf}
use acmed.Tests.Reading.{sys, disk}

abbrev packages : Packages
packages = record {
  with_period = λ _. none;
  allow_burst = λ q _. q;
  new_regex = λ _. ok tt;
  is_match = λ _ _. true;
  sorted_by = λ _ l. l;
}

abbrev no_certificate : MainEventLoop
no_certificate = record { certificates = []; accounts = ("me", account) ∷ []; endpoints = [] }

abbrev loop_or : Result Error MainEventLoop → MainEventLoop
loop_or (ok l) = l
loop_or (err e) = no_certificate
loop_or (panic m) = no_certificate

abbrev built : MainEventLoop
unfolding new
built = loop_or (new outside sys 3 packages "/a.toml" [] disk).0

new-WellFormed_example : WellFormed built
unfolding new acmed.Base.Exec.◌>>=◌ acmed.Config.Reading.from_file acmed.Config.Reading.read_all
    acmed.Config.Reading.read_cnf acmed.Config.Reading.read_path acmed.Config.Reading.load_once
    acmed.Config.Reading.load_file acmed.Config.Reading.read_contents acmed.World.Io.open_file
    acmed.World.Io.attempt_io acmed.World.Io.log acmed.Config.Reading.add_included
    acmed.Config.Reading.get_cnf_path acmed.Config.Reading.add_files acmed.Storage.Paths.push
    acmed.Config.Reading.pop acmed.Config.Reading.before_slash acmed.Config.Reading.init_directories
    acmed.Config.Reading.create_dir acmed.Config.Reading.create_crt_dirs
    acmed.Config.Merge.dispatch_global_env_vars acmed.Config.Merge.append
    acmed.Config.Merge.merge_global acmed.Config.Merge.empty_config acmed.MainLoop.New.load_accounts
    acmed.MainLoop.New.load_account acmed.Config.Lookup.account_hooks
    acmed.Config.Accounts.to_account acmed.Config.Sections.external_of acmed.Account.Load.load
    acmed.Account.Load.configured_key_type acmed.Account.Load.configured_algorithm
    acmed.Crypto.KeyType.check_alg_compatibility acmed.Crypto.Algorithm.algorithm_beq
    acmed.Crypto.KeyType.get_default_signature_alg acmed.Account.Load.fetch
    acmed.Account.Load.do_fetch acmed.Storage.Files.account_files_exists
    acmed.Storage.Paths.get_file_path acmed.Storage.Paths.get_file_full_path
    acmed.Storage.Paths.file_name acmed.Storage.Paths.to_string acmed.Storage.Paths.base_path
    acmed.MainLoop.Setup.file_manager acmed.Config.Sections.get_account_dir
    acmed.Config.Merge.merge_options acmed.Account.Load.loaded acmed.Account.Load.new_key
    acmed.Crypto.Keys.Generate.gen_keypair add_certificates acmed.MainLoop.Setup.add_certificate
    acmed.MainLoop.Setup.get_endpoint acmed.Config.Options.do_get_endpoint
    acmed.Config.Options.find_endpoint acmed.Config.Merge.with_global_env
    acmed.Config.Options.to_endpoint acmed.Endpoint.new acmed.Endpoint.Limits.new
    acmed.MainLoop.Setup.to_certificate acmed.Config.Options.get_crt_name
    acmed.Config.Options.get_key_type acmed.Config.Lookup.certificate_hooks
    acmed.Config.Sections.get_crt_name_format acmed.Config.Options.get_identifiers
    acmed.Config.Options.to_identifier acmed.Identifier.new acmed.Identifier.to_idna
    acmed.Base.split acmed.Identifier.idna_label acmed.Structs.Identifier.parse
    acmed.Base.to_lowercase acmed.Identifier.supported_challenges
    acmed.Structs.Identifier.challenge_beq acmed.Config.Options.get_csr_digest
    acmed.Config.Options.get_random_early_renew acmed.Config.Options.endpoint_random_early_renew
    acmed.Config.Options.global_random_early_renew acmed.Config.Options.get_renew_delay
    acmed.Config.Options.endpoint_renew_delay acmed.Duration.parse_duration
    acmed.Duration.get_duration_part acmed.Duration.parse_u64 acmed.Duration.span_digits
    acmed.Duration.get_multiplicator acmed.Duration.is_duration_chr acmed.Duration.add_duration
    acmed.Duration.multiplicator acmed.Duration.fold_parts acmed.MainLoop.Setup.check_id get
    acmed.Base.Dict.insert acmed.Config.Toml.from_str acmed.Config.Toml.check_identifiers
    acmed.Config.Toml.is_deserialized acmed.Config.Toml.filled_nb
new-WellFormed_example = new-WellFormed outside sys 3 packages "/a.toml" [] disk built refl

abbrev added : MainEventLoop
unfolding add_certificates
added = loop_or (add_certificates outside sys 3 packages [] cnf cnf.certificate no_certificate)

add_certificates-length_example : length added.certificates ≡ 0 + 1
unfolding add_certificates acmed.MainLoop.Setup.add_certificate acmed.MainLoop.Setup.get_endpoint
    acmed.Config.Options.do_get_endpoint acmed.Config.Options.find_endpoint
    acmed.Config.Options.to_endpoint acmed.Endpoint.new acmed.Endpoint.Limits.new
    acmed.MainLoop.Setup.to_certificate acmed.Config.Options.get_crt_name
    acmed.Config.Options.get_key_type acmed.Config.Lookup.certificate_hooks
    acmed.Config.Sections.get_crt_name_format acmed.Config.Options.get_identifiers
    acmed.Config.Options.to_identifier acmed.Identifier.new acmed.Identifier.to_idna
    acmed.Base.split acmed.Identifier.idna_label acmed.Structs.Identifier.parse
    acmed.Base.to_lowercase acmed.Identifier.supported_challenges
    acmed.Structs.Identifier.challenge_beq acmed.Config.Options.get_csr_digest
    acmed.Config.Options.get_random_early_renew acmed.Config.Options.endpoint_random_early_renew
    acmed.Config.Options.get_renew_delay acmed.Config.Options.endpoint_renew_delay
    acmed.Duration.parse_duration acmed.Duration.get_duration_part acmed.Duration.parse_u64
    acmed.Duration.span_digits acmed.Duration.get_multiplicator acmed.Duration.is_duration_chr
    acmed.Duration.add_duration acmed.Duration.multiplicator acmed.Duration.fold_parts
    acmed.MainLoop.Setup.check_id get
add_certificates-length_example =
    add_certificates-length outside sys 3 packages [] cnf cnf.certificate no_certificate added refl

abbrev known : AccountEndpoint
known = record {
  creation_date = 0;
  account_url = "https://ca.example/me";
  orders_url = "";
  key_hash = 1 ∷ [];
  contacts_hash = 7 ∷ [];
  external_account_hash = [];
}

abbrev issued : MainEventLoop
issued = record {
  certificates = ("example.org_ecdsa-p256", cert) ∷ [];
  accounts = ("me", account) ∷ [];
  endpoints = ("ca", record endpoint { nonce = none }) ∷ [];
}

abbrev before : Sys
before = record { account = account; endpoint = record endpoint { nonce = none }; world = machine }
