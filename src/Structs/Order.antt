-- ===== src/Structs/Order.antt =====
-- acmed/src/acme_proto/structs/order.rs
use acmed.Base.{String, Bool, Option, none, List, map, number_eq}
use mathlib.Core.Option
use acmed.Error.{Error}
use acmed.Structs.Problem.{HttpApiError, to_error}
use acmed.Structs.Identifier.{Identifier, OrderIdentifier, from_generic}

pub record NewOrder : Type 0 where
  pub identifiers : List OrderIdentifier
  pub not_before : Option String
  pub not_after : Option String

unfoldable pub new_order : List Identifier → NewOrder
new_order identifiers = record {
  identifiers = map from_generic identifiers;
  not_before = none;
  not_after = none;
}

pub data OrderStatus : Type 0 where
  pending ready processing valid invalid : OrderStatus

-- `Display`
unfoldable pub order_status_to_string : OrderStatus → String
order_status_to_string pending = "pending"
order_status_to_string ready = "ready"
order_status_to_string processing = "processing"
order_status_to_string valid = "valid"
order_status_to_string invalid = "invalid"

abbrev pub is_ready : OrderStatus → Bool
is_ready ready = Bool.true
is_ready _ = Bool.false

abbrev pub is_valid : OrderStatus → Bool
is_valid valid = Bool.true
is_valid _ = Bool.false

pub record Order : Type 0 where
  pub status : OrderStatus
  pub expires : Option String
  pub identifiers : List OrderIdentifier
  pub not_before : Option String
  pub not_after : Option String
  pub error : Option HttpApiError
  pub authorizations : List String
  pub finalize : String
  pub certificate : Option String

-- `ApiError for Order`
abbrev pub get_error : Order → Option Error
get_error o = Option.map to_error o.error
