-- ===== src/World/System.antt =====
-- What the reading of the configuration takes from outside: the texts that `build.rs` sets, the
-- packages glob and toml, and the standard library on paths and directories.
use acmed.Base.{String, Bool, Option, List}
use acmed.Base.Result.{Result}
use acmed.Config.Types.{Config}
use acmed.World.{Bytes, World}

-- `env!(..)`
pub record Build : Type 0 where
  pub default_accounts_dir : String
  pub default_cert_dir : String
  pub default_cert_format : String
  pub default_config_file : String

-- `glob` gives the paths that it could read; `create_dir_all` gives its error, if there is one.
pub record System : Type 0 where
  pub build : Build
  pub canonicalize : World → String → Result String String
  pub glob : World → String → Result String (List String)
  pub is_dir : World → String → Bool
  pub create_dir_all : World → String → Option String
  -- the text of a file that is UTF-8
  pub read_text : Bytes → Result String String
  -- the derived part of the deserialization of a text, and the error on a text with the message of
  -- a type that the program deserializes itself
  pub from_toml : String → Result String Config
  pub custom_error : String → String → String
