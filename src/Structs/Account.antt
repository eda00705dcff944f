-- ===== src/Structs/Account.antt =====
-- acmed/src/acme_proto/structs/account.rs: a JSON value is kept as its text.
use acmed.Base.{String, Bool, Option, List}

pub record Account : Type 0 where
  pub contact : List String
  pub terms_of_service_agreed : Bool
  pub only_return_existing : Bool
  pub external_account_binding : Option String

pub record AccountResponse : Type 0 where
  pub status : String
  pub contact : Option (List String)
  pub terms_of_service_agreed : Option Bool
  pub external_account_binding : Option String
  pub orders : Option String

pub record AccountUpdate : Type 0 where
  pub contact : List String

pub record AccountKeyRollover : Type 0 where
  pub account : String
  pub old_key : String

pub record AccountDeactivation : Type 0 where
  pub status : String

unfoldable pub new_deactivation : AccountDeactivation
new_deactivation = record { status = "deactivated" }
