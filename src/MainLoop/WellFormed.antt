-- ===== src/MainLoop/WellFormed.antt =====
-- What `MainEventLoop::new` of acmed/src/main_event_loop.rs guarantees.
use acmed.Base.{ℕ, String, ◌<>◌, ◌≡◌, none, List, [], ◌∷◌, arith, string_eq}
use acmed.Base.Result.{ok, ok_or}
use acmed.Base.Dict.{get, contains_key}
use acmed.Error.{from_text}
use acmed.World.Env.{Env}
use acmed.World.System.{System}
use acmed.Endpoint.Limits.{Packages}
use acmed.Certificate
use acmed.Certificate.{get_id}
use acmed.Config.Types
use acmed.Config.Types.{Config}
use acmed.MainLoop.Served.{WellFormed, Fresh, put-WellFormed}
use acmed.Config.Options.{to_endpoint}
use acmed.Endpoint
use acmed.Base.Gives.{Gives, Gives-ok, Gives-bind}
use acmed.Base.Exec.Ensures.{Ensures, Ensures-bind, Ensures-any, Ensures-lift}
use acmed.World.{World}
use acmed.MainLoop.New.{new}
use acmed.MainLoop.Setup.{
  MainEventLoop, get_endpoint, to_certificate, check_id, add_certificate, add_certificates,
}

module _ (env : Env) (sys : System) (depth : ℕ) (packages : Packages) (root_certs : List String)
    (cnf : Config) where
  to_certificate-names :
      (crt : Types.Certificate) (name : String) (cert : Certificate.Certificate)
      → to_certificate env sys depth packages root_certs cnf crt name ≡ ok cert
      → (cert.account_name ≡ crt.account) × (cert.endpoint_name ≡ name)
  unfolding to_certificate
  to_certificate-names crt name cert h = ground arith

  get_endpoint-nonce :
      (crt : Types.Certificate)
      → Gives (λ e. e.nonce ≡ none) (get_endpoint env sys depth packages root_certs cnf crt)
  unfolding get_endpoint to_endpoint Endpoint.new
  get_endpoint-nonce crt = record { at = λ e h. ground arith }

  add_certificate-WellFormed :
      (crt : Types.Certificate) (l : MainEventLoop)
      → WellFormed l
      → Gives WellFormed (add_certificate env sys depth packages root_certs cnf crt l)
  unfolding add_certificate
  add_certificate-WellFormed crt l w =
      Gives-bind (get_endpoint env sys depth packages root_certs cnf crt) _ λ ept taken.
        Gives-bind (to_certificate env sys depth packages root_certs cnf crt ept.name) _
          λ cert made.
            Gives-bind (check_id (contains_key (get_id cert) l.certificates) (get_id cert)) _ λ _ _.
              Gives-bind
                (ok_or (get crt.account l.accounts)
                  (from_text (crt.account <> ": account not found")))
                _
                λ acc found.
                  let names = to_certificate-names crt ept.name cert made in
                  Gives-ok _ (
                    put-WellFormed crt.account acc ept cert l (ground (arith, found)) names.0
                      names.1 ((get_endpoint-nonce crt).at ept taken) w)

  add_certificates-WellFormed :
      (certs : List Types.Certificate) (l : MainEventLoop)
      → WellFormed l
      → Gives WellFormed (add_certificates env sys depth packages root_certs cnf certs l)
  unfolding add_certificates
  add_certificates-WellFormed [] l w = Gives-ok l w
  add_certificates-WellFormed (crt ∷ certs) l w =
      Gives-bind (add_certificate env sys depth packages root_certs cnf crt l) _ λ m added.
        add_certificates-WellFormed certs m ((add_certificate-WellFormed crt l w).at m added)

no_endpoint : Fresh []
unfolding get
no_endpoint name e h = absurd (cc)

module _ (env : Env) (sys : System) (depth : ℕ) (packages : Packages) where
  new-Ensures :
      (config_file : String) (root_certs : List String)
      → Ensures
          (λ _. Unit)
          (new env sys depth packages config_file root_certs)
          (λ l _. WellFormed l)
  unfolding new
  new-Ensures config_file root_certs =
      Ensures-bind (λ _ _. Unit) _ _ (Ensures-any _)
        λ cnf.
          Ensures-bind (λ _ _. Unit) _ _ (Ensures-any _)
            λ accounts. Ensures-lift _ λ s l _ made.
              (add_certificates-WellFormed env sys depth packages root_certs cnf cnf.certificate
                  (record { accounts = accounts; certificates = []; endpoints = [] })
                  (record { distinct = tt; served = tt; fresh = no_endpoint })).at
                l made

  -- In a loop that `new` returns no two certificates have one name, and there are the account of
  -- each certificate, which has an entry for the endpoint of the certificate, and this endpoint.
  -- Each endpoint stands under its own name and has no nonce.
  pub new-WellFormed :
      (config_file : String) (root_certs : List String) (w : World) (l : MainEventLoop)
      → (new env sys depth packages config_file root_certs w).0 ≡ ok l
      → WellFormed l
  new-WellFormed config_file root_certs w l = (new-Ensures config_file root_certs).at w tt l
