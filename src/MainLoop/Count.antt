-- ===== src/MainLoop/Count.antt =====
-- How many certificates `MainEventLoop::new` of acmed/src/main_event_loop.rs takes over.
use acmed.Base.{
  ℕ, suc, ◌+◌, length, String, ◌<>◌, ◌≡◌, refl, Bool, true, false, List, [], ◌∷◌, arith, string_eq,
  eq_iff,
}
use acmed.Base.Result.{ok, ok_or}
use acmed.Base.Dict.{Dict, get, insert, contains_key}
use acmed.Error.{from_text}
use acmed.World.Env.{Env}
use acmed.World.System.{System}
use acmed.Endpoint.Limits.{Packages}
use acmed.Certificate
use acmed.Certificate.{get_id}
use acmed.Config.Types
use acmed.Config.Types.{Config}
use acmed.Base.Gives.{Gives, Gives-ok, Gives-bind}
use acmed.MainLoop.New.{new}
use acmed.MainLoop.Setup.{
  MainEventLoop, get_endpoint, to_certificate, check_id, put, add_certificate, add_certificates,
}

check_id-ok : (b : Bool) (id : String) (t : Unit {0}) → check_id b id ≡ ok t → b ≡ false
unfolding check_id
check_id-ok true id t h = absurd (cc)
check_id-ok false id t h = refl

module _ (env : Env) (sys : System) (depth : ℕ) (packages : Packages) (root_certs : List String)
    (cnf : Config) where
  length-insert :
      (id : String) (cert : Certificate.Certificate) (m : Dict Certificate.Certificate)
      → contains_key id m ≡ false
      → length (insert id cert m) ≡ suc (length m)
  unfolding insert get
  length-insert id cert [] new = refl
  length-insert id cert ((j, c) ∷ m) new = ground (arith, eq_iff j id, length-insert id cert m)

  add_certificate-length :
      (crt : Types.Certificate) (l : MainEventLoop)
      → Gives
          (λ m. length m.certificates ≡ suc (length l.certificates))
          (add_certificate env sys depth packages root_certs cnf crt l)
  unfolding add_certificate put
  add_certificate-length crt l =
      Gives-bind (get_endpoint env sys depth packages root_certs cnf crt) _ λ ept _.
        Gives-bind (to_certificate env sys depth packages root_certs cnf crt ept.name) _
          λ cert made.
            Gives-bind (check_id (contains_key (get_id cert) l.certificates) (get_id cert)) _
              λ t checked.
                Gives-bind
                  (ok_or (get crt.account l.accounts)
                    (from_text (crt.account <> ": account not found")))
                  _
                  λ acc _. Gives-ok _ (
                    length-insert (get_id cert) cert l.certificates (
                      check_id-ok (contains_key (get_id cert) l.certificates) (get_id cert) t
                        checked))

  length-Gives :
      (certs : List Types.Certificate) (l : MainEventLoop)
      → Gives
          (λ m. length m.certificates ≡ length l.certificates + length certs)
          (add_certificates env sys depth packages root_certs cnf certs l)
  unfolding add_certificates
  length-Gives [] l = Gives-ok l (omega arith)
  length-Gives (crt ∷ certs) l =
      Gives-bind (add_certificate env sys depth packages root_certs cnf crt l) _ λ m added. record {
        at = λ n e.
            omega (arith, (length-Gives certs m).at n e, (add_certificate-length crt l).at m added);
      }

  -- Where the certificates of a configuration are taken over without an error, each adds one: none
  -- takes the place of another with the same name.
  pub add_certificates-length :
      (certs : List Types.Certificate) (l m : MainEventLoop)
      → add_certificates env sys depth packages root_certs cnf certs l ≡ ok m
      → length m.certificates ≡ length l.certificates + length certs
  add_certificates-length certs l m = (length-Gives certs l).at m
