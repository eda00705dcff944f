-- ===== src/Error.antt =====
-- acme_common/src/error.rs: an error is its message. The errors of the standard library and of the
-- other packages reach it through their own text, to which each `From` puts its words in front.
use acmed.Base.{String, ◌<>◌}

pub record Error : Type 0 where
  pub message : String

abbrev pub from_text : String → Error
from_text e = record { message = e }

unfoldable pub prefix : String → Error → Error
prefix p e = record { message = p <> (": " <> e.message) }

-- `fmt::Display for Error`
abbrev pub to_string : Error → String
to_string e = e.message

abbrev pub from_io : String → Error
from_io e = from_text ("IO error: " <> e)

abbrev pub from_addr : String → Error
from_addr e = from_text e

abbrev pub from_utf8 : String → Error
from_utf8 e = from_text ("UTF-8 error: " <> e)

abbrev pub from_base64 : String → Error
from_base64 e = from_text ("base 64 decode error: " <> e)

abbrev pub from_toml : String → Error
from_toml e = from_text ("IO error: " <> e)

abbrev pub from_json : String → Error
from_json e = from_text ("IO error: " <> e)

abbrev pub from_reqwest : String → Error
from_reqwest e = from_text ("HTTP error: " <> e)

abbrev pub from_glob : String → Error
from_glob e = from_text ("pattern error: " <> e)

abbrev pub from_minijinja : String → Error
from_minijinja e = from_text ("template error: " <> e)

abbrev pub from_openssl : String → Error
from_openssl e = from_text e

abbrev pub from_nix : String → Error
from_nix e = from_text e

abbrev pub from_syslog : String → Error
from_syslog e = from_text ("syslog error: " <> e)

abbrev from_recv : String → Error
from_recv e = from_text ("MSPC receiver error: " <> e)

-- the argument is the duration of the error, in the form of `Debug`
abbrev from_system_time : String → Error
from_system_time duration = from_text ("SystemTimeError difference: " <> duration)

abbrev from_native_tls : String → Error
from_native_tls e = from_text e
