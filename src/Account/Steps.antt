-- ===== src/Account/Steps.antt =====
-- What the steps of acmed/src/acme_proto/account.rs keep and change of the account.
use acmed.Base.{String, ◌≡◌, refl, Option, list_eq, number_eq}
use acmed.Base.Result.{Result, ok, err, panic}
use acmed.Base.Exec.{Exec}
use acmed.Base.Exec.Keeps.{Keeps, keeps_rules}
use acmed.Base.Exec.Ensures.{Ensures}
use acmed.Error.{Error}
use acmed.Config.Types.{NamedAcmeResource}
use acmed.World.Env.{Env}
use acmed.World.Io.{Io}
use acmed.Http.Client.{Net}
use acmed.Http.Requests.{post_jose}
use acmed.Http.Frame.{Stable, post-Keeps}
use acmed.Account.State.{Account}
use acmed.Account.Sync
use acmed.Account.Sync.{Sys, on_net, on_world, change}

-- the endpoint has this name, and the account is so
abbrev pub On : String → (Account → Type 0) → Sys → Type 0
On name P s = (s.endpoint.name ≡ name) × P s.account

abbrev pub Named : String → Net → Type 0
Named name n = n.endpoint.name ≡ name

pub Named-Stable : (name : String) → Stable (Named name)
Named-Stable name = record {
  quiet = record { logged = λ s e p h. h; renewed = λ s n v h. h };
  posted = λ s r h. h;
}

module _ {X A : Type 0} where
  pub on_net-Keeps :
      (name : String) (P : Account → Type 0) (m : Exec Net X A)
      → Keeps (Named name) m
      → Keeps (On name P) (on_net m)
  unfolding on_net
  on_net-Keeps name P m k = record { at = λ s h. (k.at _ h.0, h.1) }

pub on_world-Keeps :
    {A : Type 0} (name : String) (P : Account → Type 0) (m : Io A) → Keeps (On name P) (on_world m)
unfolding on_world
on_world-Keeps name P m = record { at = λ s h. h }

pub change-Ensures :
    (f : String → Account → Result Error Account) (name : String) (P Q : Account → Type 0)
    → ((a b : Account) → P a → f name a ≡ ok b → Q b)
    → Ensures (On name P) (change f name) (λ _. On name Q)
unfolding change
change-Ensures f name P Q h = record { at = λ s p r e. changed (f name s.account) s p refl r e }
  where
    changed :
        (r : Result Error Account) (s : Sys)
        → On name P s
        → f name s.account ≡ r
        → (v : Unit {0}) → (Sync.assign r s).0 ≡ ok v
        → On name Q (Sync.assign r s).1
    changed (ok b) s p e v q = (p.0, h s.account b p.1 e)
    changed (err x) s p e v q = cc
    changed (panic x) s p e v q = cc

module _ (env : Env) where
  pub save_account-Keeps :
      (name : String) (P : Account → Type 0) → Keeps (On name P) (Sync.save_account env)
  unfolding Sync.save_account
  save_account-Keeps name P = search (keeps_rules, on_world-Keeps)

  pub post_jose_no_response-Keeps :
      (name : String) (b : String → String → Result Error String) (url : String)
      (resource : Option NamedAcmeResource)
      → Keeps (Named name) (Sync.post_jose_no_response env b url resource)
  unfolding Sync.post_jose_no_response post_jose
  post_jose_no_response-Keeps name b url resource =
      search (keeps_rules, post-Keeps (Named-Stable name))

  pub new_account-Keeps :
      (name : String) (b : String → String → Result Error String)
      → Keeps (Named name) (Sync.new_account env b)
  unfolding Sync.new_account post_jose
  new_account-Keeps name b = search (keeps_rules, post-Keeps (Named-Stable name)) depth 10
