-- ===== src/MainLoop/New.antt =====
-- `MainEventLoop::new` of acmed/src/main_event_loop.rs: the accounts are loaded from their files
-- first.
use acmed.Base.{ℕ, String, List, [], ◌∷◌}
use acmed.Base.Exec.{pure, lift, ◌>>=◌}
use acmed.Base.Dict.{Dict, insert}
use acmed.World.Env.{Env}
use acmed.World.Io.{Io}
use acmed.World.System.{System}
use acmed.Account.State.{Account}
use acmed.Endpoint.Limits.{Packages}
use acmed.Config.Types
use acmed.Config.Types.{Config}
use acmed.Config.Lookup.{account_hooks}
use acmed.Config.Accounts.{to_account}
use acmed.Config.Reading.{from_file}
use acmed.MainLoop.Setup.{MainEventLoop, file_manager, add_certificates}

-- `depth` bounds the recursion of the reading and of the hooks, which the source does not bound.
module _ (env : Env) (sys : System) (depth : ℕ) (packages : Packages) where
  unfoldable pub load_account : Config → Types.Account → Io Account
  load_account cnf acc = do
    hooks ← lift (account_hooks cnf depth acc)
    to_account env acc (file_manager sys cnf acc.name hooks acc.env)

  unfoldable pub load_accounts : Config → List Types.Account → Dict Account → Io (Dict Account)
  load_accounts cnf [] accounts = pure accounts
  load_accounts cnf (acc ∷ more) accounts = do
    account ← load_account cnf acc
    load_accounts cnf more (insert acc.name account accounts)

  unfoldable pub new : String → List String → Io MainEventLoop
  new config_file root_certs = do
    cnf ← from_file env sys depth config_file
    accounts ← load_accounts cnf cnf.account []
    lift (
        add_certificates env sys depth packages root_certs cnf cnf.certificate
          (record { accounts = accounts; certificates = []; endpoints = [] }))
