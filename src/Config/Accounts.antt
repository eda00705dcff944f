-- ===== src/Config/Accounts.antt =====
-- How a section of acmed/src/config.rs becomes an account: it is loaded from its file.
use acmed.Base.{map}
use acmed.Base.Exec.{lift, ◌>>=◌}
use acmed.World.Env.{Env}
use acmed.World.Io.{Io}
use acmed.Storage.Paths.{FileManager}
use acmed.Account.State
use acmed.Account.Load.{load}
use acmed.Config.Types
use acmed.Config.Sections.{get_type, get_value, external_of}

module _ (env : Env) where
  -- `Account::to_generic`
  unfoldable pub to_account : Types.Account → FileManager → Io State.Account
  to_account a file_manager = do
    let contacts = map (λ (e : Types.AccountContact). (get_type e, get_value e)) a.contacts
    external_account ← lift (external_of env a.external_account)
    load env file_manager a.name contacts a.key_type a.signature_algorithm external_account
