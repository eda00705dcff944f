-- ===== src/Config/Toml.antt =====
-- A file of the configuration as serde reads it in acmed/src/config.rs: beside the types, there is
-- the test that each identifier is given by its domain name or by its address.
use acmed.Base.{ℕ, ◌+◌, String, Bool, Option, none, some, all, true, false, ◌==◌, number_eq}
use acmed.Base.Result.{Result, ok, err, ◌>>=◌}
use acmed.Base.Ends.{Ends, Ends-ok, Ends-err, Ends-bind}
use acmed.World.System.{System}
use acmed.Config.Types
use acmed.Config.Types.{Config}

-- `u8::from(name.is_some())`
abbrev filled : Option String → ℕ
filled none = 0
filled (some _) = 1

unfoldable pub filled_nb : Types.Identifier → ℕ
filled_nb unchecked = filled unchecked.dns + filled unchecked.ip

-- `Identifier::deserialize`, on what serde derives
unfoldable pub is_deserialized : Types.Identifier → Bool
is_deserialized unchecked = filled_nb unchecked == 1

unfoldable pub check_identifiers : Config → Bool
check_identifiers config =
    all (λ (crt : Types.Certificate). all is_deserialized crt.identifiers) config.certificate

abbrev pub checked : System → String → Config → Bool → Result String Config
checked sys text config true = ok config
checked sys text config false =
    err (sys.custom_error text "one and only one of `dns` or `ip` must be specified")

-- `toml::from_str::<Config>`
unfoldable pub from_str : System → String → Result String Config
from_str sys text = do
  config ← sys.from_toml text
  checked sys text config (check_identifiers config)

checked-Ends :
    (sys : System) (text : String) (config : Config) (b : Bool) → Ends (checked sys text config b)
checked-Ends sys text config true = Ends-ok config
checked-Ends sys text config false = Ends-err _

pub from_str-Ends :
    (sys : System) (text : String) → Ends (sys.from_toml text) → Ends (from_str sys text)
unfolding from_str
from_str-Ends sys text h =
    Ends-bind (sys.from_toml text) _ h
      λ config. checked-Ends sys text config (check_identifiers config)
