-- ===== src/Common/Logs.antt =====
-- The log system of acme_common/src/logs.rs.
use acmed.Base.{String, ◌<>◌, Bool, Option, none, some, ◌==◌, string_eq, if◌then◌else◌}
use acmed.Base.Result
use acmed.Base.Result.{Result, ok, err, ◌>>=◌, ◌>>◌}
use acmed.Error.{Error, from_text, from_syslog}
use acmed.World.Terminal.{LevelFilter, error, warn, info, debug, trace, Terminal}

pub data LogSystem : Type 0 where
  sys_log std_err : LogSystem

abbrev pub default_log_system : LogSystem
default_log_system = sys_log

abbrev pub default_log_level : LevelFilter
default_log_level = warn

unfoldable pub get_loglevel : Option String → Result Error LevelFilter
get_loglevel none = ok default_log_level
get_loglevel (some v) =
    if v == "error"
    then ok error
    else if v == "warn"
    then ok warn
    else if v == "info"
    then ok info
    else if v == "debug"
    then ok debug
    else if v == "trace"
    then ok trace
    else err (from_text (v <> ": invalid log level"))

unfoldable pub log_type : Bool → Bool → LogSystem
log_type has_syslog has_stderr =
    if has_syslog then sys_log else if has_stderr then std_err else default_log_system

module _ (os : Terminal) where
  unfoldable pub start_log : LogSystem → LevelFilter → Result Error (Unit {0})
  start_log sys_log level = Result.map_err from_syslog (os.init_syslog level)
  start_log std_err level = ok (os.init_stderr level)

  unfoldable pub set_log_system :
      Option String → Bool → Bool → Result Error (LogSystem × LevelFilter)
  set_log_system log_level has_syslog has_stderr = do
    level ← get_loglevel log_level
    let logtype = log_type has_syslog has_stderr
    start_log logtype level
    ok (logtype, level)
