-- ===== src/Proto/Order.antt =====
-- The order of `request_certificate` in acmed/src/acme_proto.rs, placed again once if the account
-- had to be registered anew.
use acmed.Base.{ℕ, zero, suc, String, Bool, true, false, not, ◌&&◌, if◌then◌else◌}
use acmed.Base.Result
use acmed.Base.Result.{Result, ok, err, panic}
use acmed.Base.Exec.{Exec, pure, fail, lift, gets, ◌>>=◌, ◌>>◌, map_err}
use acmed.Error.{Error, from_json}
use acmed.Structs.Problem.{account_does_not_exist}
use acmed.Structs.Order
use acmed.Structs.Order.{Order}
use acmed.World.{Bytes}
use acmed.World.Env.{Env}
use acmed.Http.Client.{M, HttpError, in_err, is_acme_err}
use acmed.Account.Messages.{data_builder}
use acmed.Account.Sync.{Sys, on_net, register_account}
use acmed.Certificate.{Certificate}
use acmed.Proto.Http
use acmed.Proto.Http.{Builder}

-- `.map_err(HttpError::in_err)?`
unfoldable pub on_endpoint : {A : Type 0} → M A → Exec Sys Error A
on_endpoint m = map_err in_err (on_net m)

module _ (env : Env) where
  -- `set_data_builder!`, with the account as it is at that moment
  unfoldable pub builder : String → Bytes → Exec Sys Error Builder
  builder endpoint_name d = gets (λ s. data_builder env s.account endpoint_name d)

  -- what a round of the loop makes of the answer; `again` is the next round
  unfoldable pub placed :
      Bool
      → Exec Sys Error (Order × String)
      → Result HttpError (Order × String)
      → Exec Sys Error (Order × String)
  placed new_reg again (ok order) = pure order
  placed new_reg again (err e) =
      if not new_reg && is_acme_err e account_does_not_exist
      then register_account env >> again
      else fail (in_err e)
  placed new_reg again (panic m) = lift (panic m)

  unfoldable pub place :
      Bool → Exec Sys Error (Order × String) → Builder → Exec Sys Error (Order × String)
  place new_reg again make s =
      let (r, s') = on_net (Http.new_order env make) s in placed new_reg again r s'

  module _ (cert : Certificate) (endpoint_name : String) where
    -- The loop goes round at most twice, so that fuel of 2 is never used up.
    unfoldable pub order_loop : ℕ → Bool → Exec Sys Error (Order × String)
    order_loop zero new_reg = lift (panic "out of fuel")
    order_loop (suc fuel) new_reg = do
      new_order ←
          lift
            (Result.map_err from_json (env.json.write_new_order (Order.new_order cert.identifiers)))
      make ← builder endpoint_name (env.as_bytes new_order)
      place new_reg (order_loop fuel true) make

    unfoldable pub create_order : Exec Sys Error (Order × String)
    create_order = order_loop 2 false
