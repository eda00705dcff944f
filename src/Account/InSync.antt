-- ===== src/Account/InSync.antt =====
-- What the account knows after `synchronize` of acmed/src/account.rs.
use acmed.Base.{
  String, ◌≡◌, refl, sym, ◌∙◌, subst, ap, arith, Bool, true, false, not, Option, none, some, ◌==◌,
  list_eq, list_beq_iff, number_eq, if◌then◌else◌, is_empty, Bool-cases, inl, inr,
}
use acmed.Base.Result.{ok}
use acmed.Base.Exec.{pure}
use acmed.Base.Exec.Keeps.{keeps_rules}
use acmed.Base.Exec.Ensures.{
  Ensures, Ensures-pure, Ensures-bind, Ensures-bind_lift, Ensures-of_Keeps, Ensures-gets_known,
  Ensures-gets, Ensures-pre,
}
use acmed.World.{Bytes}
use acmed.World.Env.{Env}
use acmed.Account.State.{
  Account, AccountEndpoint, ExternalAccount, get_endpoint, hash_key, hash_contacts,
  hash_external_account,
}
use acmed.Account.Known.{
  Known, SameExternal, get_endpoint-found, update_key_hash-Known, update_contacts_hash-Known,
}
use acmed.Account.Sync
use acmed.Account.Sync.{Sys, on_net, on_world, change}
use acmed.Account.Steps.{On, change-Ensures, save_account-Keeps, post_jose_no_response-Keeps}
use acmed.Account.Register.{register_account-Known, create-Ensures}

module _ (env : Env) where
  update_account_contacts-Known :
      {k c x : Bool} (name : String)
      → Ensures
          (On name (Known env k c x name))
          (Sync.update_account_contacts env)
          (λ _. On name (Known env k true x name))
  unfolding Sync.update_account_contacts
  update_account_contacts-Known {k} {c} {x} name =
      Ensures-gets_known _ _ name (λ s p. p.0)
        (Ensures-bind (λ _. On name (Known env k c x name)) _ _
          (Ensures-of_Keeps _ (search keeps_rules))
          λ account. Ensures-bind_lift _ _ λ update _. Ensures-bind_lift _ _ λ ep _.
            create-Ensures env _ name _ _ (post_jose_no_response-Keeps env name _ _ _) (
              Ensures-bind (λ _. On name (Known env k true x name)) _ _
                (change-Ensures _ name _ _
                  (λ a b known. update_contacts_hash-Known env name a known b))
                λ _. Ensures-of_Keeps _ (save_account-Keeps env name _)))

  update_account_key-Known :
      {k c x : Bool} (name : String)
      → Ensures
          (On name (Known env k c x name))
          (Sync.update_account_key env)
          (λ _. On name (Known env true c x name))
  unfolding Sync.update_account_key
  update_account_key-Known {k} {c} {x} name =
      Ensures-gets_known _ _ name (λ s p. p.0)
        (Ensures-bind (λ _. On name (Known env k c x name)) _ _
          (Ensures-of_Keeps _ (search keeps_rules))
          λ url.
            Ensures-bind (λ _. On name (Known env k c x name)) _ _
              (Ensures-of_Keeps _ (search keeps_rules))
              λ account. Ensures-bind_lift _ _ λ ep _. Ensures-bind_lift _ _ λ old _.
                Ensures-bind_lift _ _ λ old_jwk _. Ensures-bind_lift _ _ λ rollover _.
                  Ensures-bind_lift _ _ λ payload _.
                    create-Ensures env _ name _ _ (post_jose_no_response-Keeps env name _ _ _) (
                      Ensures-bind (λ _. On name (Known env true c x name)) _ _
                        (change-Ensures _ name _ _
                          (λ a b known. update_key_hash-Known env name a known b))
                        λ _. Ensures-of_Keeps _ (save_account-Keeps env name _)))

  update_changed-Known :
      (name : String) (c k : Bool)
      → Ensures
          (On name (Known env k c true name))
          (Sync.update_changed env (not c) (not k))
          (λ _. On name (Known env true true true name))
  unfolding Sync.update_changed
  update_changed-Known name c k =
      Ensures-bind (λ _. On name (Known env k true true name)) _ _ (contacts_part c) λ _. key_part k
    where
      contacts_part :
          (c : Bool)
          → Ensures
              (On name (Known env k c true name))
              (if not c then Sync.update_account_contacts env else pure tt)
              (λ _. On name (Known env k true true name))
      contacts_part true = Ensures-pure tt (λ s p. p)
      contacts_part false = update_account_contacts-Known name

      key_part :
          (k : Bool)
          → Ensures
              (On name (Known env k true true name))
              (if not k then Sync.update_account_key env else pure tt)
              (λ _. On name (Known env true true true name))
      key_part true = Ensures-pure tt (λ s p. p)
      key_part false = update_account_key-Known name

  -- What is compared with the stored hashes.
  external-same :
      (o : Option ExternalAccount) (ep : AccountEndpoint)
      → Sync.external_changed env o ep ≡ false
      → SameExternal env o ep.external_account_hash
  unfolding Sync.external_changed
  external-same none ep h = tt
  external-same (some ec) ep h =
      ground (arith, list_beq_iff (hash_external_account env ec) ep.external_account_hash)

  compared-Known :
      (name : String) (a : Account) (ep : AccountEndpoint) (key_hash : Bytes)
      → get_endpoint name a ≡ ok ep
      → Sync.external_changed env a.external_account ep ≡ false
      → hash_key env a.current_key ≡ ok key_hash
      → Known env
          (key_hash == ep.key_hash)
          (hash_contacts env a.contacts == ep.contacts_hash)
          true
          name
          a
  compared-Known name a ep key_hash there same hashed = record {
    entry = ep;
    found = get_endpoint-found name a ep there;
    key = λ h. hashed ∙ ap ok ((list_beq_iff key_hash ep.key_hash).0 h);
    contacts = λ h. sym ((list_beq_iff (hash_contacts env a.contacts) ep.contacts_hash).0 h);
    external = λ _. external-same a.external_account ep same;
  }

  update_account-Known :
      (name : String) (a : Account) (ep : AccountEndpoint)
      → get_endpoint name a ≡ ok ep
      → Sync.external_changed env a.external_account ep ≡ false
      → Ensures
          (On name (λ b. b ≡ a))
          (Sync.update_account env a ep)
          (λ _. On name (Known env true true true name))
  unfolding Sync.update_account
  update_account-Known name a ep there same = Ensures-bind_lift _ _ λ key_hash hashed.
      Ensures-pre _
        (λ s p. (
          p.0,
          subst
              (λ b.
                Known env (key_hash == ep.key_hash)
                  (hash_contacts env a.contacts == ep.contacts_hash) true name b)
              (sym p.1) (compared-Known name a ep key_hash there same hashed),
        ))
        (update_changed-Known name (hash_contacts env a.contacts == ep.contacts_hash)
          (key_hash == ep.key_hash))

  registered_anew :
      (name : String) (P : Account → Type 0)
      → Ensures
          (On name P)
          (Sync.register_account env)
          (λ _. On name (Known env true true true name))
  registered_anew name P =
      Ensures-pre (On name (λ _. Unit)) (λ s p. (p.0, tt)) (register_account-Known env name)

  synchronize_ensures :
      (name : String)
      → Ensures
          (On name (λ _. Unit))
          (Sync.synchronize env)
          (λ _. On name (Known env true true true name))
  unfolding Sync.synchronize
  synchronize_ensures name =
      Ensures-gets_known _ _ name (λ s p. p.0)
        (Ensures-gets _ _ λ a.
          Ensures-pre (On name (λ b. b ≡ a)) (λ s p. (p.0.0, p.1))
            (Ensures-bind_lift _ _ λ ep there. elim (Bool-cases (is_empty ep.account_url)) [
              | inl unknown ↦ rw unknown (registered_anew name _)
              | inr known ↦
                  rw known (elim (Bool-cases (Sync.external_changed env a.external_account ep)) [
                    | inl changed ↦ rw changed (registered_anew name _)
                    | inr same ↦ rw same (update_account-Known name a ep there same)
                  ])
            ]))

  -- When `synchronize` succeeds, on whichever of its ways (a registration, an update of the
  -- contacts, of the key, of both, or none), the account still has its entry for the endpoint, and
  -- the hashes of that entry are those of its current key, its contacts and its external account.
  pub synchronize-Known :
      (s : Sys)
      → (Sync.synchronize env s).0 ≡ ok tt
      → Known env true true true s.endpoint.name (Sync.synchronize env s).1.account
  synchronize-Known s h = ((synchronize_ensures s.endpoint.name).at s (refl, tt) tt h).1
