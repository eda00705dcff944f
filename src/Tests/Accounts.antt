-- ===== src/Tests/Accounts.antt =====
-- Runs of the theorems on the file of an account, and on a renewal that fails.
use acmed.Base.{◌≡◌, ap, none, [], ◌∷◌, refl}
use acmed.Base.Result.{ok}
use acmed.Error.{Error}
use acmed.Structs.Storage.{AccountStorage}
use acmed.World.Env.{Env}
use acmed.Account.State.{Account}
use acmed.Account.Storage.{encode, decode}
use acmed.Account.RoundTrip.{decode-encode}
use acmed.Account.Configured.{Configured, load-Configured}
use acmed.Account.PastKeys.{KeepsKey, update_keys-KeepsKey}
use acmed.Account.Contact.{ContactType}
use acmed.Crypto.KeyType.{KeyType}
use acmed.Crypto.Algorithm.{JwsSignatureAlgorithm}
use acmed.Tests.Outside.{machine}
use acmed.Tests.Outside.{outside}
use acmed.Tests.Authority.{account}

abbrev stored : AccountStorage
stored = record {
  name = "me";
  endpoints =
      (
        "ca",
        record {
          creation_date = 0;
          account_url = "https://ca.example/me";
          orders_url = "";
          key_hash = 1 ∷ [];
          contacts_hash = 7 ∷ [];
          external_account_hash = [];
        },
      )
      ∷ [];
  contacts = [];
  current_key = record { creation_date = 0; key = 1 ∷ []; signature_algorithm = "ES256" };
  past_keys = [];
  external_account = none;
}

abbrev saving : Env
saving = record outside { serialize = λ _. ok (5 ∷ []); deserialize = λ _. ok stored }

decode-encode_example : decode saving account.file_manager "me" (5 ∷ []) ≡ ok account
unfolding encode acmed.Account.Storage.to_storage acmed.Account.Storage.store_key
    acmed.Account.Storage.store_endpoint acmed.Crypto.Algorithm.to_string
    acmed.Crypto.Keys.get_key_type acmed.Crypto.Keys.private_key_to_der
decode-encode_example =
    decode-encode saving account (record { reads = λ d h. cc h; typed = refl }) tt "me" (5 ∷ [])
      (record { reads = λ s d h e. let same : stored ≡ s = cc h in ap (λ x. ok x) same }) refl

abbrev failure : Error
failure = record { message = "no route to host" }

abbrev made_account : Account
made_account = record {
  name = "me";
  endpoints = [];
  contacts = record { contact_type = ContactType.mailto; value = "me@example.org" } ∷ [];
  current_key = record {
    creation_date = 1700000000;
    key = record { key_type = KeyType.ecdsa_p256; inner_key = 1 ∷ 2 ∷ [] };
    signature_algorithm = JwsSignatureAlgorithm.es256;
  };
  past_keys = [];
  file_manager = account.file_manager;
  external_account = none;
}

load-Configured_example :
    Configured outside (("mailto", "me@example.org") ∷ []) none none none made_account
unfolding acmed.Account.Load.load acmed.Account.Load.loaded acmed.Account.Load.fetch
    acmed.Account.Load.do_fetch acmed.Account.Load.new_key acmed.Crypto.Keys.Generate.gen_keypair
    acmed.Crypto.Keys.Generate.generation acmed.Account.Load.configured_key_type
    acmed.Account.Load.configured_algorithm acmed.Account.Storage.load_contact
    acmed.Account.Contact.new acmed.Account.Contact.parse acmed.Account.Contact.clean_value
    acmed.Base.to_lowercase acmed.Base.Exec.◌>>=◌ acmed.Crypto.KeyType.check_alg_compatibility
    acmed.Crypto.KeyType.get_default_signature_alg acmed.Crypto.Algorithm.algorithm_beq
    acmed.Storage.Files.account_files_exists acmed.Storage.Files.check_files
    acmed.Storage.Paths.get_file_path acmed.Storage.Paths.get_file_full_path
    acmed.Storage.Paths.file_name acmed.World.Io.log
load-Configured_example =
    load-Configured outside account.file_manager "me" (("mailto", "me@example.org") ∷ []) none none
      none machine made_account refl

abbrev rolled : Account
rolled = record account {
  past_keys = account.current_key ∷ [];
  current_key = record {
    creation_date = 1700000000;
    key = record { key_type = KeyType.ecdsa_p384; inner_key = 1 ∷ 2 ∷ [] };
    signature_algorithm = JwsSignatureAlgorithm.es384;
  };
}

update_keys-KeepsKey_example : KeepsKey account rolled
unfolding acmed.Hooks.call acmed.Base.Exec.◌>>=◌ acmed.Storage.Files.set_owner
    acmed.Storage.Files.store acmed.Storage.Files.write_file acmed.Storage.Paths.file_name
    acmed.Storage.Paths.get_file_full_path acmed.World.Io.log acmed.World.Io.attempt_io
    acmed.World.Io.open_for_write acmed.World.Io.write_all acmed.Account.Load.update_keys
    acmed.Account.Load.replace_key acmed.Account.Load.is_current acmed.Account.Load.new_key
    acmed.Crypto.Keys.Generate.gen_keypair acmed.Crypto.Keys.Generate.generation
    acmed.Account.Load.save acmed.Account.Load.do_save acmed.Account.Storage.encode
    acmed.Account.Storage.to_storage acmed.Account.Storage.store_key
    acmed.Crypto.KeyType.key_type_beq acmed.Crypto.Keys.private_key_to_der
update_keys-KeepsKey_example =
    update_keys-KeepsKey outside KeyType.ecdsa_p384 JwsSignatureAlgorithm.es384 account machine
      rolled refl
