-- ===== src/Account/Contact.antt =====
-- acmed/src/account/contact.rs
use acmed.Base.{String, ◌<>◌, ◌==◌, string_eq, if◌then◌else◌, to_lowercase}
use acmed.Base.Result.{Result, ok, err, ◌>>=◌}
use acmed.Error.{Error, from_text}

pub data ContactType : Type 0 where
  mailto : ContactType

pub record AccountContact : Type 0 where
  pub contact_type : ContactType
  pub value : String

abbrev clean_mailto : String → Result Error String
clean_mailto value = ok value

unfoldable pub clean_value : ContactType → String → Result Error String
clean_value mailto value = clean_mailto value

-- `FromStr for ContactType`; `unicode` is what `to_lowercase` does outside ASCII.
unfoldable pub parse : (String → String) → String → Result Error ContactType
parse unicode s =
    if to_lowercase unicode s == "mailto"
    then ok mailto
    else err (from_text (s <> ": unknown contact type."))

unfoldable pub type_to_string : ContactType → String
type_to_string mailto = "mailto"

-- `AccountContact::new`
unfoldable pub new : (String → String) → String → String → Result Error AccountContact
new unicode type_name value = do
  contact_type ← parse unicode type_name
  cleaned ← clean_value contact_type value
  ok (record { contact_type = contact_type; value = cleaned })

-- `Display for AccountContact`
unfoldable pub to_string : AccountContact → String
to_string c = type_to_string c.contact_type <> (":" <> c.value)
