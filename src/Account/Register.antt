-- ===== src/Account/Register.antt =====
-- A registration, and a request that falls back to one: acmed/src/acme_proto/account.rs.
use acmed.Base.{
  String, refl, Bool, true, false, list_eq, number_eq, Bool-cases, inl, inr, unwrap_or,
}
use acmed.Base.Result.{Result, ok, err, panic}
use acmed.Base.Exec.{Exec}
use acmed.Base.Exec.Keeps.{Keeps, keeps_rules}
use acmed.Base.Exec.Ensures.{
  Ensures, Ensures-fail, Ensures-lift, Ensures-bind, Ensures-bind_lift, Ensures-map_err,
  Ensures-mono, Ensures-of_Keeps, Ensures-gets_known, Ensures-pre,
}
use acmed.Error.{Error}
use acmed.Structs.Problem.{acme_error_beq, get_acme_type, account_does_not_exist}
use acmed.Structs.Account.{AccountResponse}
use acmed.World.Env.{Env}
use acmed.Http.Client.{M, HttpError, api_error, generic_error}
use acmed.Account.State.{Account}
use acmed.Account.Known.{
  Known, set_account_url-Known, set_orders_url-Known, update_key_hash-Known,
  update_contacts_hash-Known, update_external_account_hash-Known,
}
use acmed.Account.Sync
use acmed.Account.Sync.{Sys, on_net, on_world, change}
use acmed.Account.Steps.{
  On, Named, on_net-Keeps, change-Ensures, save_account-Keeps, new_account-Keeps,
}

module _ (env : Env) where
  pub registered-Known :
      (name : String) (acc_rep : AccountResponse) (url : String)
      → Ensures
          (On name (λ _. Unit))
          (Sync.registered env acc_rep url)
          (λ _. On name (Known env true true true name))
  unfolding Sync.registered
  registered-Known name acc_rep url =
      Ensures-gets_known _ _ name (λ s p. p.0)
        (Ensures-bind (λ _. On name (Known env false false false name)) _ _
          (change-Ensures _ name _ _ (λ a b _. set_account_url-Known env name url a b))
          λ _.
            Ensures-bind (λ _. On name (Known env false false false name)) _ _
              (change-Ensures _ name _ _
                (λ a b k. set_orders_url-Known env name a k (unwrap_or acc_rep.orders "") b))
              λ _.
                Ensures-bind (λ _. On name (Known env true false false name)) _ _
                  (change-Ensures _ name _ _ (λ a b k. update_key_hash-Known env name a k b))
                  λ _.
                    Ensures-bind (λ _. On name (Known env true true false name)) _ _
                      (change-Ensures _ name _ _
                        (λ a b k. update_contacts_hash-Known env name a k b))
                      λ _.
                        Ensures-bind (λ _. On name (Known env true true true name)) _ _
                          (change-Ensures _ name _ _
                            (λ a b k. update_external_account_hash-Known env name a k b))
                          λ _. Ensures-of_Keeps _ (save_account-Keeps env name _))

  pub register_account-Known :
      (name : String)
      → Ensures
          (On name (λ _. Unit))
          (Sync.register_account env)
          (λ _. On name (Known env true true true name))
  unfolding Sync.register_account
  register_account-Known name =
      Ensures-bind (λ _. On name (λ _. Unit)) _ _ (Ensures-of_Keeps _ (search keeps_rules))
        λ account.
          Ensures-bind (λ _. On name (λ _. Unit)) _ _ (Ensures-of_Keeps _ (search keeps_rules))
            λ endpoint. Ensures-bind_lift _ _ λ account_struct _. Ensures-bind_lift _ _ λ body _.
              Ensures-bind (λ _. On name (λ _. Unit)) _ _
                (Ensures-map_err _ _ (
                  Ensures-of_Keeps _
                    (on_net-Keeps name (λ _. Unit) _ (new_account-Keeps env name _))))
                λ answer. registered-Known name answer.0 answer.1

  pub Known-any :
      {k c x : Bool} (name : String) (a : Account)
      → Known env true true true name a
      → Known env k c x name a
  Known-any name a h = record {
    entry = h.entry;
    found = h.found;
    key = λ _. h.key refl;
    contacts = λ _. h.contacts refl;
    external = λ _. h.external refl;
  }

  pub or_register-Ensures :
      {k c x : Bool} (P : Account → Type 0) (name : String) (go_on : Exec Sys Error (Unit {0}))
      → Ensures (On name P) go_on (λ _. On name (Known env k c x name))
      → (r : Result HttpError (Unit {0}))
      → Ensures (On name P) (Sync.or_register env go_on r) (λ _. On name (Known env k c x name))
  unfolding Sync.or_register
  or_register-Ensures P name go_on h (ok _) = h
  or_register-Ensures P name go_on h (err (generic_error e)) = Ensures-fail e _
  or_register-Ensures P name go_on h (panic m) = Ensures-lift (panic m) (λ s a p e. cc)
  or_register-Ensures P name go_on h (err (api_error e)) =
      elim (Bool-cases (acme_error_beq (get_acme_type e) account_does_not_exist)) [
        | inl gone ↦ rw gone (
            Ensures-mono
              (Ensures-pre (On name (λ _. Unit)) (λ s p. (p.0, tt)) (register_account-Known name))
              (λ _ s p. (p.0, Known-any name s.account p.1)))
        | inr other ↦ rw other (Ensures-fail _ _)
      ]

  pub create-Ensures :
      {k c x : Bool} (P : Account → Type 0) (name : String) (m : M (Unit {0}))
      (go_on : Exec Sys Error (Unit {0}))
      → Keeps (Named name) m
      → Ensures (On name P) go_on (λ _. On name (Known env k c x name))
      → Ensures
          (On name P)
          (Sync.create_account_if_does_not_exist env m go_on)
          (λ _. On name (Known env k c x name))
  unfolding Sync.create_account_if_does_not_exist
  create-Ensures P name m go_on km h = record {
    at = λ s p.
        (or_register-Ensures P name go_on h (on_net m s).0).at (on_net m s).1
          ((on_net-Keeps name P m km).at s p);
  }
