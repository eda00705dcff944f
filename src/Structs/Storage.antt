-- ===== src/Structs/Storage.antt =====
-- acmed/src/account/storage.rs: an account as its file holds it.
use acmed.Base.{ℕ, String, Option, List}
use acmed.Base.Dict.{Dict}

pub record ExternalAccountStorage : Type 0 where
  pub identifier : String
  pub key : List ℕ
  pub signature_algorithm : String

pub record AccountKeyStorage : Type 0 where
  pub creation_date : ℕ
  pub key : List ℕ
  pub signature_algorithm : String

pub record AccountEndpointStorage : Type 0 where
  pub creation_date : ℕ
  pub account_url : String
  pub orders_url : String
  pub key_hash : List ℕ
  pub contacts_hash : List ℕ
  pub external_account_hash : List ℕ

pub record AccountStorage : Type 0 where
  pub name : String
  pub endpoints : Dict AccountEndpointStorage
  pub contacts : List (String × String)
  pub current_key : AccountKeyStorage
  pub past_keys : List AccountKeyStorage
  pub external_account : Option ExternalAccountStorage
