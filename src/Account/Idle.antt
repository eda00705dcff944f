-- ===== src/Account/Idle.antt =====
-- `synchronize` of acmed/src/account.rs on an account that the server knows as it is.
use acmed.Base.{
  ◌≡◌, refl, sym, true, false, Option, none, some, ◌==◌, list_eq, list_beq_iff, number_eq, is_empty,
}
use acmed.Base.Result.{ok}
use acmed.Base.Exec.{◌>>=◌}
use acmed.World.{Bytes}
use acmed.World.Env.{Env}
use acmed.Account.State.{ExternalAccount, AccountEndpoint}
use acmed.Account.Known.{Known, SameExternal, found-get_endpoint}
use acmed.Account.Sync
use acmed.Account.Sync.{Sys}

bytes_same : (a b : Bytes) → a ≡ b → (a == b) ≡ true
bytes_same a b e = (list_beq_iff a b).1 e

module _ (env : Env) where
  external_same :
      (x : Option ExternalAccount) (ep : AccountEndpoint)
      → SameExternal env x ep.external_account_hash
      → Sync.external_changed env x ep ≡ false
  unfolding Sync.external_changed
  external_same none ep h = refl
  external_same (some ec) ep h = rw (bytes_same _ _ (sym h)) refl

  -- Where the entry of the endpoint has an address and the hashes of the current key, the contacts
  -- and the external account, `synchronize` succeeds without a request, and changes nothing.
  pub synchronize_idle :
      (s : Sys) (known : Known env true true true s.endpoint.name s.account)
      → is_empty known.entry.account_url ≡ false
      → Sync.synchronize env s ≡ (ok tt, s)
  unfolding Sync.synchronize Sync.update_account Sync.update_changed ◌>>=◌
  synchronize_idle s known there =
      rw (found-get_endpoint s.endpoint.name s.account known.entry known.found) (
        rw there (
          rw (external_same s.account.external_account known.entry (known.external refl)) (
            rw (known.key refl) (
              rw (bytes_same _ _ (sym (known.contacts refl)))
                (rw (bytes_same known.entry.key_hash known.entry.key_hash refl) refl)))))
