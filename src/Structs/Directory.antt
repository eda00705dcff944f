-- ===== src/Structs/Directory.antt =====
-- acmed/src/acme_proto/structs/directory.rs
use acmed.Base.{String, Bool, Option, List}

pub record DirectoryMeta : Type 0 where
  pub terms_of_service : Option String
  pub website : Option String
  pub caa_identities : Option (List String)
  pub external_account_required : Option Bool

pub record Directory : Type 0 where
  pub meta : Option DirectoryMeta
  pub new_nonce : String
  pub new_account : String
  pub new_order : String
  pub new_authz : Option String
  pub revoke_cert : String
  pub key_change : String
