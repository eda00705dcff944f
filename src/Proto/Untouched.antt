-- ===== src/Proto/Untouched.antt =====
-- The file of the certificate while `request_certificate` of acmed/src/acme_proto.rs is on its way to
-- a new one.
use acmed.Base.{String, ◌≡◌, refl, Option, []}
use acmed.Base.Result.{Result, ok, err, panic}
use acmed.Base.Exec.{◌>>=◌}
use acmed.Base.Exec.Keeps.{Keeps, keeps_rules, Keeps-bind, Keeps-pure, Keeps-lift, Keeps-if}
use acmed.Error.{Error}
use acmed.Config.Types.{HookType}
use acmed.World.Env.{Env, ChallengeHookData}
use acmed.World.Io.{Io, log}
use acmed.Http.Client.{M}
use acmed.Account.State.{Account}
use acmed.Account.Sync
use acmed.Account.Sync.{Sys, on_net, on_world, change}
use acmed.Certificate.{Certificate}
use acmed.Proto.Request
use acmed.Base.{sym, subst, ◌∙◌, ◌≢◌}
use acmed.World.{File, Event}
use acmed.World.Env.{KeyPair}
use acmed.Storage.Paths.{FileManager, FullPath, get_file_full_path, account, private_key}
use acmed.Storage.Files.{get_keypair, set_keypair}
use acmed.Storage.Unhooked.{call_none-Keeps}
use acmed.Storage.Elsewhere.{At, Keeps-of_Has, write_file-At, read_file-At}
use acmed.Storage.Write.{log-Has}
use acmed.Crypto.Keys.Generate.{gen_keypair}
use acmed.Account.Load.{save, do_save}
use acmed.Certificate.{call_challenge_hooks, call_challenge_hooks_clean}
use acmed.Proto.Keys.{get_key_pair, gen_key_pair, reuse_key_pair, or_generate}
use acmed.Proto.Wide.{Wide}
use acmed.Proto.Frame.{Framed, SameFiles}
use acmed.Proto.Kept.{obtain-Keeps}

-- The file at the path, and the file manager of the account.
abbrev Held : String → Option File → FileManager → Sys → Type 0
Held p f fm s = (s.world.files p ≡ f) × (s.account.file_manager ≡ fm)

module _ (p : String) (f : Option File) (fm : FileManager) where
  files-Wide : Wide (λ n. n.world.files p ≡ f)
  files-Wide = record {
    stable = record {
      quiet = record { logged = λ s e q h. h; renewed = λ s n v h. h };
      posted = λ s r h. h;
    };
    refreshed = λ s d h. h;
  }

  on_net-Held :
      {A : Type 0} (m : M A) → Keeps (λ n. n.world.files p ≡ f) m → Keeps (Held p f fm) (on_net m)
  unfolding on_net
  on_net-Held m k = record { at = λ s h. (k.at _ h.0, h.1) }

  on_world-Held : {A : Type 0} (m : Io A) → Keeps (At p f) m → Keeps (Held p f fm) (on_world m)
  unfolding on_world
  on_world-Held m k = record { at = λ s h. (k.at s.world h.0, h.1) }

  assigned :
      (r : Result Error Account) (s : Sys)
      → ((b : Account) → r ≡ ok b → b.file_manager ≡ s.account.file_manager)
      → Held p f fm s
      → Held p f fm (Sync.assign r s).1
  assigned (ok b) s same h = (h.0, same b refl ∙ h.1)
  assigned (err x) s same h = h
  assigned (panic x) s same h = h

  change-Held :
      (g : String → Account → Result Error Account) (name : String)
      → SameFiles g name
      → Keeps (Held p f fm) (change g name)
  unfolding change
  change-Held g name same = record { at = λ s h. assigned (g name s.account) s (same s.account) h }

module _ (env : Env) (p : String) (f : Option File) (fm : FileManager) (full : FullPath)
    (none_ : fm.hooks ≡ []) (there : get_file_full_path env fm account ≡ ok full)
    (other : full.path ≢ p) where
  save-At : (a : Account) → Keeps (At p f) (save env fm a)
  unfolding save do_save
  save-At a = search (keeps_rules, write_file-At env p f fm account full none_ there other) depth 8

  save_account-Held : Keeps (Held p f fm) (Sync.save_account env)
  unfolding Sync.save_account ◌>>=◌
  save_account-Held = record {
    at = λ s h.
        (on_world-Held p f fm (save env s.account.file_manager s.account)
            (subst (λ x. Keeps (At p f) (save env x s.account)) (sym h.1) (save-At s.account))).at
          s h;
  }

module _ (env : Env) (cert : Certificate) (p : String) (f : Option File) (full : FullPath)
    (none_ : cert.file_manager.hooks ≡ [])
    (there : get_file_full_path env cert.file_manager private_key ≡ ok full)
    (other : full.path ≢ p) where
  gen_key_pair-At : Keeps (At p f) (gen_key_pair env cert)
  unfolding gen_key_pair gen_keypair set_keypair
  gen_key_pair-At =
      search
        (
          keeps_rules,
          logged,
          write_file-At env p f cert.file_manager private_key full none_ there other,
        )
        depth 14
    where
      logged : (e : Event) → Keeps (At p f) (log e)
      logged e = Keeps-of_Has p f _ (λ fs. log-Has fs e)

  read_key_pair-At : Keeps (At p f) (get_keypair env cert.file_manager)
  unfolding get_keypair
  read_key_pair-At = search (keeps_rules, read_file-At env p f) depth 10

  or_generate-At : (r : Result Error KeyPair) → Keeps (At p f) (or_generate env cert r)
  or_generate-At (ok k) = Keeps-pure k
  or_generate-At (err _) = gen_key_pair-At
  or_generate-At (panic m) = Keeps-lift (panic m)

  reuse_key_pair-At : Keeps (At p f) (reuse_key_pair env cert)
  unfolding reuse_key_pair
  reuse_key_pair-At = record {
    at = λ w h.
        (or_generate-At (get_keypair env cert.file_manager w).0).at
          (get_keypair env cert.file_manager w).1 (read_key_pair-At.at w h);
  }

  get_key_pair-At : Keeps (At p f) (get_key_pair env cert)
  unfolding get_key_pair
  get_key_pair-At = Keeps-if cert.kp_reuse _ _ reuse_key_pair-At gen_key_pair-At

module _ (env : Env) (cert : Certificate) (p : String) (f : Option File)
    (none_ : cert.hooks ≡ []) where
  hooked-At :
      (file_name proof identifier : String)
      → Keeps (At p f) (call_challenge_hooks env cert file_name proof identifier)
  unfolding call_challenge_hooks
  hooked-At file_name proof identifier =
      Keeps-bind _ _ (Keeps-lift _)
        λ id. Keeps-bind _ _ (call_none-Keeps env _ _ _ _ none_) λ _. Keeps-pure _

  cleaned-At :
      (d : ChallengeHookData) (t : HookType)
      → Keeps (At p f) (call_challenge_hooks_clean env cert d t)
  unfolding call_challenge_hooks_clean
  cleaned-At d t = call_none-Keeps env _ _ _ _ none_

-- With no hook, and where the account and the private key have other paths, the file at a path is
-- as it was when the way to a new certificate ends, whether it ends with a certificate, an error or
-- a panic: until a certificate is downloaded the old one is not touched.
pub files-obtain :
    (env : Env) (cert : Certificate) (name : String) (s : Sys) (p : String)
    (account_file key_file : FullPath)
    → cert.hooks ≡ []
    → cert.file_manager.hooks ≡ []
    → s.account.file_manager.hooks ≡ []
    → get_file_full_path env s.account.file_manager account ≡ ok account_file
    → get_file_full_path env cert.file_manager private_key ≡ ok key_file
    → account_file.path ≢ p
    → key_file.path ≢ p
    → (Request.obtain env cert name s).1.world.files p ≡ s.world.files p
files-obtain env cert name s p account_file key_file none_ none_file none_account at_account at_key
      not_account not_key =
    ((obtain-Keeps env cert (Held p f fm) framed name).at s (refl, refl)).0
  where
    f : Option File
    f = s.world.files p

    fm : FileManager
    fm = s.account.file_manager

    framed : Framed env cert (Held p f fm)
    framed = record {
      requested = λ A m h. on_net-Held p f fm m (h _ (files-Wide p f fm));
      changed = change-Held p f fm;
      saved = save_account-Held env p f fm account_file none_account at_account not_account;
      hooked = λ file_name proof identifier.
          on_world-Held p f fm _ (hooked-At env cert p f none_ file_name proof identifier);
      cleaned = λ d t. on_world-Held p f fm _ (cleaned-At env cert p f none_ d t);
      keyed =
          on_world-Held p f fm _ (get_key_pair-At env cert p f key_file none_file at_key not_key);
    }
