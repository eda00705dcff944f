-- ===== src/Proto/Fuel.antt =====
-- The loop of `request_certificate` in acmed/src/acme_proto.rs that places the order.
use acmed.Base.{ℕ, suc, Bool, true, false, String, ◌≡◌, refl, ap}
use acmed.Base.Result.{Result, ok, err, panic}
use acmed.Base.Exec.{Exec, lift, ◌>>=◌}
use acmed.Error.{Error, from_json}
use acmed.Structs.Order
use acmed.Base.Result
use acmed.Structs.Order.{Order}
use acmed.Http.Client.{HttpError}
use acmed.World.Env.{Env}
use acmed.Account.Sync.{Sys, on_net}
use acmed.Certificate.{Certificate}
use acmed.Proto.Http
use acmed.Proto.Http.{Builder}
use acmed.Proto.Order.{builder, placed, place, order_loop, create_order}

module _ (env : Env) (again other : Exec Sys Error (Order × String)) where
  -- After a registration the answer is final.
  placed_last :
      (r : Result HttpError (Order × String)) → placed env true again r ≡ placed env true other r
  unfolding placed
  placed_last (ok order) = refl
  placed_last (err e) = refl
  placed_last (panic m) = refl

  place_last :
      (make : Builder) (s : Sys) → place env true again make s ≡ place env true other make s
  unfolding place
  place_last make s =
      let (r, s') = on_net (Http.new_order env make) s in ap (λ m. m s') (placed_last r)

module _ (env : Env) (cert : Certificate) (name : String) where
  round : Bool → (Builder → Exec Sys Error (Order × String)) → Exec Sys Error (Order × String)
  round new_reg next = do
    new_order ←
        lift
          (Result.map_err from_json (env.json.write_new_order (Order.new_order cert.identifiers)))
    make ← builder env name (env.as_bytes new_order)
    next make

  loop_last : (n : ℕ) → order_loop env cert name (suc n) true ≡ order_loop env cert name 1 true
  unfolding order_loop round
  loop_last n = ap (round true) (λ i make s.
      place_last env (order_loop env cert name n true) (order_loop env cert name 0 true) make s i)

  -- More fuel than two rounds changes nothing: the loop of `create_order` never uses it up.
  pub order_loop-create_order :
      (n : ℕ) → order_loop env cert name (suc (suc n)) false ≡ create_order env cert name
  unfolding create_order order_loop round
  order_loop-create_order n = ap (λ again. round false (place env false again)) (loop_last n)
