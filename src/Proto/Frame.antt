-- ===== src/Proto/Frame.antt =====
-- What the steps of a request of a certificate leave as it was: a predicate on the account, its
-- endpoint and the world is `Framed` if it survives the requests, the changes of the account, and
-- the files and hooks; then every step of acmed/src/acme_proto/account.rs keeps it.
use acmed.Base.{String, ◌≡◌, Bool, Option}
use acmed.Base.Result.{Result, ok, err, panic}
use acmed.Base.Exec.{Exec}
use acmed.Base.Exec.Keeps.{
  Keeps, keeps_rules, Keeps-bind, Keeps-fail, Keeps-lift, Keeps-if, Keeps-gets,
}
use acmed.Error.{Error}
use acmed.Config.Types.{NamedAcmeResource}
use acmed.Structs.Account.{AccountResponse}
use acmed.Config.Types.{HookType}
use acmed.World.Env.{Env, ChallengeHookData}
use acmed.Http.Client.{Net, M, HttpError, api_error, generic_error}
use acmed.Account.State.{Account}
use acmed.Account.Sync
use acmed.Account.Sync.{Sys, on_net, on_world, change}
use acmed.Certificate.{Certificate}
use acmed.Proto.Wide.{Wide, no_response-Keeps, new_account-Keeps}
use acmed.Account.State.{
  get_endpoint, set_account_url, set_orders_url, update_key_hash, update_contacts_hash,
  update_external_account_hash,
}
use acmed.Certificate.{call_challenge_hooks, call_challenge_hooks_clean}
use acmed.Proto.Keys.{get_key_pair}
use acmed.Base.{arith}

-- a request that keeps whatever requests can keep
abbrev pub Harmless : {A : Type 0} → M A → Type 1
Harmless m = (Q : Net → Type 0) → Wide Q → Keeps Q m

abbrev pub SameFiles : (String → Account → Result Error Account) → String → Type 0
SameFiles f name = (a b : Account) → f name a ≡ ok b → b.file_manager ≡ a.file_manager

pub record Framed (env : Env) (cert : Certificate) (P : Sys → Type 0) : Type 1 where
  pub requested : (A : Type 0) (m : M A) → Harmless m → Keeps P (on_net m)
  pub changed :
      (f : String → Account → Result Error Account) (name : String)
      → SameFiles f name
      → Keeps P (change f name)
  pub saved : Keeps P (Sync.save_account env)
  pub hooked :
      (file_name proof identifier : String)
      → Keeps P (on_world (call_challenge_hooks env cert file_name proof identifier))
  pub cleaned :
      (d : ChallengeHookData) (t : HookType)
      → Keeps P (on_world (call_challenge_hooks_clean env cert d t))
  pub keyed : Keeps P (on_world (get_key_pair env cert))

module _ (name : String) where
  set_account_url-SameFiles : (url : String) → SameFiles (λ n. set_account_url n url) name
  unfolding set_account_url get_endpoint
  set_account_url-SameFiles url a b h = ground arith

  set_orders_url-SameFiles : (url : String) → SameFiles (λ n. set_orders_url n url) name
  unfolding set_orders_url get_endpoint
  set_orders_url-SameFiles url a b h = ground arith

  update_key_hash-SameFiles : (env : Env) → SameFiles (update_key_hash env) name
  unfolding update_key_hash get_endpoint
  update_key_hash-SameFiles env a b h = ground arith

  update_contacts_hash-SameFiles : (env : Env) → SameFiles (update_contacts_hash env) name
  unfolding update_contacts_hash get_endpoint
  update_contacts_hash-SameFiles env a b h = ground arith

  update_external-SameFiles : (env : Env) → SameFiles (update_external_account_hash env) name
  unfolding update_external_account_hash get_endpoint
  update_external-SameFiles env a b h = ground arith

module _ (env : Env) (cert : Certificate) (P : Sys → Type 0) (framed : Framed env cert P) where
  registered-Keeps : (r : AccountResponse) (url : String) → Keeps P (Sync.registered env r url)
  unfolding Sync.registered
  registered-Keeps r url = Keeps-bind _ _ (Keeps-gets _) λ name.
      Keeps-bind _ _ (framed.changed _ name (set_account_url-SameFiles name url)) λ _.
        Keeps-bind _ _ (framed.changed _ name (set_orders_url-SameFiles name _)) λ _.
          Keeps-bind _ _ (framed.changed _ name (update_key_hash-SameFiles name env)) λ _.
            Keeps-bind _ _ (framed.changed _ name (update_contacts_hash-SameFiles name env)) λ _.
              Keeps-bind _ _ (framed.changed _ name (update_external-SameFiles name env))
                λ _. framed.saved

  new_account_kept :
      (b : String → String → Result Error String) → Keeps P (on_net (Sync.new_account env b))
  new_account_kept b = framed.requested _ _ (λ Q wide. new_account-Keeps Q wide env b)

  pub register_account-Keeps : Keeps P (Sync.register_account env)
  unfolding Sync.register_account
  register_account-Keeps = search (keeps_rules, new_account_kept, registered-Keeps) depth 14

  or_register-Keeps :
      (go_on : Exec Sys Error (Unit {0}))
      → Keeps P go_on
      → (r : Result HttpError (Unit {0})) → Keeps P (Sync.or_register env go_on r)
  unfolding Sync.or_register
  or_register-Keeps go_on k (ok _) = k
  or_register-Keeps go_on k (err (api_error e)) =
      Keeps-if _ _ _ register_account-Keeps (Keeps-fail _)
  or_register-Keeps go_on k (err (generic_error e)) = Keeps-fail e
  or_register-Keeps go_on k (panic m) = Keeps-lift (panic m)

  no_response_kept :
      (b : String → String → Result Error String) (url : String)
      (resource : Option NamedAcmeResource)
      → Keeps P (on_net (Sync.post_jose_no_response env b url resource))
  no_response_kept b url resource =
      framed.requested _ _ (λ Q wide. no_response-Keeps Q wide env b url resource)

  create_account-Keeps :
      (m : M (Unit {0})) (go_on : Exec Sys Error (Unit {0}))
      → Keeps P (on_net m)
      → Keeps P go_on
      → Keeps P (Sync.create_account_if_does_not_exist env m go_on)
  unfolding Sync.create_account_if_does_not_exist
  create_account-Keeps m go_on km k = record {
    at = λ s h. (or_register-Keeps go_on k (on_net m s).0).at (on_net m s).1 (km.at s h);
  }

  saved_kept : Keeps P (Sync.save_account env)
  saved_kept = framed.saved

  changed_contacts : (name : String) → Keeps P (change (update_contacts_hash env) name)
  changed_contacts name = framed.changed _ name (update_contacts_hash-SameFiles name env)

  changed_key : (name : String) → Keeps P (change (update_key_hash env) name)
  changed_key name = framed.changed _ name (update_key_hash-SameFiles name env)

  update_contacts-Keeps : Keeps P (Sync.update_account_contacts env)
  unfolding Sync.update_account_contacts
  update_contacts-Keeps =
      search (keeps_rules, create_account-Keeps, no_response_kept, saved_kept, changed_contacts)
        depth 14

  update_key-Keeps : Keeps P (Sync.update_account_key env)
  unfolding Sync.update_account_key
  update_key-Keeps =
      search (keeps_rules, create_account-Keeps, no_response_kept, saved_kept, changed_key) depth 18

  update_changed-Keeps : (c k : Bool) → Keeps P (Sync.update_changed env c k)
  unfolding Sync.update_changed
  update_changed-Keeps c k = search (keeps_rules, update_contacts-Keeps, update_key-Keeps)

  pub synchronize-Keeps : Keeps P (Sync.synchronize env)
  unfolding Sync.synchronize Sync.update_account
  synchronize-Keeps = search (keeps_rules, register_account-Keeps, update_changed-Keeps) depth 14
