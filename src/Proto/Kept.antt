-- ===== src/Proto/Kept.antt =====
-- The steps of `request_certificate` of acmed/src/acme_proto.rs up to the download keep what is
-- `Framed`, however they end.
use acmed.Base.{ℕ, zero, suc, String, Bool, false, none, List, [], ◌∷◌}
use acmed.Base.Result.{Result, ok, err, panic}
use acmed.Base.Exec.{Exec}
use acmed.Base.Exec.Keeps.{
  Keeps, keeps_rules, Keeps-bind, Keeps-fail, Keeps-pure, Keeps-lift, Keeps-if, Keeps-map_err,
}
use acmed.Error.{Error}
use acmed.Structs.Authorization
use acmed.Structs.Authorization.{Authorization}
use acmed.Structs.Identifier
use acmed.Structs.Order.{Order}
use acmed.World.{Bytes}
use acmed.World.Env.{Env}
use acmed.Http.Client.{M, HttpError}
use acmed.Account.Sync
use acmed.Account.Sync.{Sys, on_net, on_world, change}
use acmed.Certificate.{Certificate, call_challenge_hooks}
use acmed.Proto.Http
use acmed.Proto.Order
use acmed.Proto.Authorize
use acmed.Proto.Request
use acmed.World.Env.{KeyPair}
use acmed.Proto.Http.{Builder}
use acmed.Proto.Wide.{
  no_response-Keeps, refresh_directory-Keeps, new_order-Keeps, get_authorization-Keeps,
  pool_authorization-Keeps, pool_order-Keeps, finalize_order-Keeps, get_certificate-Keeps,
}
use acmed.Proto.Frame.{Framed, Harmless, register_account-Keeps, synchronize-Keeps}

module _ (env : Env) (cert : Certificate) (P : Sys → Type 0) (framed : Framed env cert P) where
  requested : {A : Type 0} (m : M A) → Harmless m → Keeps P (Order.on_endpoint m)
  unfolding Order.on_endpoint
  requested m h = Keeps-map_err _ _ (framed.requested _ m h)

  builder-Keeps : (name : String) (d : Bytes) → Keeps P (Order.builder env name d)
  unfolding Order.builder
  builder-Keeps name d = search keeps_rules

  placed-Keeps :
      (new_reg : Bool) (again : Exec Sys Error (Order × String))
      → Keeps P again
      → (r : Result HttpError (Order × String)) → Keeps P (Order.placed env new_reg again r)
  unfolding Order.placed
  placed-Keeps new_reg again k (ok o) = Keeps-pure o
  placed-Keeps new_reg again k (err e) =
      Keeps-if _ _ _ (Keeps-bind _ _ (register_account-Keeps env cert P framed) (λ _. k))
        (Keeps-fail _)
  placed-Keeps new_reg again k (panic m) = Keeps-lift (panic m)

  place-Keeps :
      (new_reg : Bool) (again : Exec Sys Error (Order × String)) (b : Builder)
      → Keeps P again
      → Keeps P (Order.place env new_reg again b)
  unfolding Order.place
  place-Keeps new_reg again b k = record {
    at = λ s h.
        (placed-Keeps new_reg again k (on_net (Http.new_order env b) s).0).at
          (on_net (Http.new_order env b) s).1
          ((framed.requested _ _ (λ Q wide. new_order-Keeps Q wide env b)).at s h);
  }

  module _ (name : String) where
    order_loop-Keeps :
        (fuel : ℕ) (new_reg : Bool) → Keeps P (Order.order_loop env cert name fuel new_reg)
    unfolding Order.order_loop
    order_loop-Keeps zero new_reg = Keeps-lift _
    order_loop-Keeps (suc fuel) new_reg =
        search (keeps_rules, builder-Keeps, place-Keeps, order_loop-Keeps fuel) depth 10

    told-Keeps :
        (b : Builder) (url : String)
        → Keeps P (Order.on_endpoint (Sync.post_jose_no_response env b url none))
    told-Keeps b url = requested _ (λ Q wide. no_response-Keeps Q wide env b url none)

    complete-Keeps :
        (a : Authorization) (c : Authorization.Challenge) (ds : Authorize.HookDatas)
        → Keeps P (Authorize.complete env cert name a c ds)
    unfolding Authorize.complete
    complete-Keeps a c ds = search (keeps_rules, hooks_kept, builder-Keeps, told-Keeps) depth 14
      where
        hooks_kept :
            (file_name proof identifier : String)
            → Keeps P (on_world (call_challenge_hooks env cert file_name proof identifier))
        hooks_kept = framed.hooked

    complete_all-Keeps :
        (c : Identifier.Challenge) (a : Authorization) (cs : List Authorization.Challenge)
        (ds : Authorize.HookDatas)
        → Keeps P (Authorize.complete_all env cert name c a cs ds)
    unfolding Authorize.complete_all
    complete_all-Keeps c a [] ds = Keeps-pure ds
    complete_all-Keeps c a (x ∷ cs) ds =
        Keeps-bind _ _ (Keeps-if _ _ _ (complete-Keeps a x ds) (Keeps-pure ds))
          (λ more. complete_all-Keeps c a cs more)

    clean_all-Keeps : (ds : Authorize.HookDatas) → Keeps P (Authorize.clean_all env cert name ds)
    unfolding Authorize.clean_all
    clean_all-Keeps [] = Keeps-pure tt
    clean_all-Keeps ((d, t) ∷ ds) = Keeps-bind _ _ (framed.cleaned d t) (λ _. clean_all-Keeps ds)

    prove-Keeps :
        (url : String) (a : Authorization) (ds : Authorize.HookDatas)
        → Keeps P (Authorize.prove env cert name url a ds)
    unfolding Authorize.prove
    prove-Keeps url a ds =
        search (keeps_rules, complete_all-Keeps, builder-Keeps, pooled, clean_all-Keeps) depth 14
      where
        pooled :
            (b : Builder) (done : Authorization → Bool) (url : String)
            → Keeps P (Order.on_endpoint (Http.pool_authorization env b done url))
        pooled b done url = requested _ (λ Q wide. pool_authorization-Keeps Q wide env b done url)

    authorize-Keeps :
        (url : String) (ds : Authorize.HookDatas)
        → Keeps P (Authorize.authorize env cert name url ds)
    unfolding Authorize.authorize Authorize.authorize_if
    authorize-Keeps url ds = search (keeps_rules, builder-Keeps, fetched, prove-Keeps) depth 14
      where
        fetched :
            (b : Builder) (url : String)
            → Keeps P (Order.on_endpoint (Http.get_authorization env b url))
        fetched b url = requested _ (λ Q wide. get_authorization-Keeps Q wide env b url)

    authorize_all-Keeps :
        (urls : List String) (ds : Authorize.HookDatas)
        → Keeps P (Authorize.authorize_all env cert name urls ds)
    unfolding Authorize.authorize_all
    authorize_all-Keeps [] ds = Keeps-pure tt
    authorize_all-Keeps (url ∷ urls) ds =
        Keeps-bind _ _ (authorize-Keeps url ds) (λ more. authorize_all-Keeps urls more)

    make_csr-Keeps : (k : KeyPair) → Keeps P (Request.make_csr env cert k)
    unfolding Request.make_csr
    make_csr-Keeps k = search keeps_rules depth 10

    finalize-Keeps : (o : Order) → Keeps P (Request.finalize env cert name o)
    unfolding Request.finalize
    finalize-Keeps o = Keeps-bind _ _ framed.keyed λ k. Keeps-bind _ _ (make_csr-Keeps k) λ csr.
        Keeps-bind _ _ (builder-Keeps _ _) λ b.
          Keeps-bind _ _ (requested _ (λ Q wide. finalize_order-Keeps Q wide env b _))
            λ _. Keeps-pure tt

    wait_for-Keeps :
        (done : Order → Bool) (url : String) → Keeps P (Request.wait_for env cert name done url)
    unfolding Request.wait_for
    wait_for-Keeps done url =
        Keeps-bind _ _ (builder-Keeps _ _)
          λ b. requested _ (λ Q wide. pool_order-Keeps Q wide env b done url)

    download-Keeps : (o : Order) → Keeps P (Request.download env cert name o)
    unfolding Request.download
    download-Keeps o = Keeps-bind _ _ (Keeps-lift _) λ url.
        Keeps-bind _ _ (builder-Keeps _ _)
          λ b. requested _ (λ Q wide. get_certificate-Keeps Q wide env b url)

    pub obtain-Keeps : Keeps P (Request.obtain env cert name)
    unfolding Request.obtain Order.create_order
    obtain-Keeps = Keeps-bind _ _ (requested _ (λ Q wide. refresh_directory-Keeps Q wide env)) λ _.
        Keeps-bind _ _ (synchronize-Keeps env cert P framed) λ _.
          Keeps-bind _ _ (order_loop-Keeps 2 false) λ o.
            Keeps-bind _ _ (authorize_all-Keeps o.0.authorizations [])
              λ _. search (keeps_rules, wait_for-Keeps, finalize-Keeps, download-Keeps) depth 10
